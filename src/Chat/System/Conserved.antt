-- ===== src/Chat/System/Conserved.antt =====
-- What holds in every run of the chat.
use learnuv.Chat.Server.Lifetime.Rules.{without-erase}
use learnuv.Chat.Server.Lifetime.{without}
use learnuv.Base.Int.{ℤ}
use learnuv.Base.{
  ap₂, Bool, inr, ℕ, ◌^◌, ◌<◌, ◌≡◌, sym, ap, subst, ◌∙◌, inl, List, ◌++◌, append_assoc, Bytes,
  length, All, All-append, ok, refl, [], arith, append-nil, ◌∷◌,
}
use learnuv.Buffer.Inv.{contents, new-IsValid}
use learnuv.Codec.Stream.{Decodes-append, frames, pending}
use learnuv.Codec.RoundTrip.{new_codec-IsReady}
use learnuv.Uv.{count}
use learnuv.Chat.Server.{on_connection, Write, Server, on_read}
use learnuv.Chat.Server.Broadcast.{texts}
use learnuv.Chat.Server.Input.{IsDistinct, on_read_error}
use learnuv.Chat.Server.History.{broadcasts}
use learnuv.Chat.Server.Growth.{IsFitting}
use learnuv.Chat.Server.Sent.{frames-texts_append, IsOldest, IsOldest-append}
use learnuv.Chat.Server.Safety.{
  on_connection-conns, on_read_eof-erase, on_read-Heard, on_connection-SafeAround,
  on_read_eof-SafeAround, start-IsSafe,
}
use learnuv.Chat.Client.{on_write_end}
use learnuv.Chat.Client.Reads.{on_read_tcp-SameBuffers, on_write_end-SameBuffers}
use learnuv.Chat.System.{
  joined, System, update, with_writes, Step, joins, leaves, types, hears, prints, Run, then_step,
  begins, fails, hangs_up, has_written,
}
use learnuv.Chat.System.Posts.{silence, IsPosted, IsPosted-append}
use learnuv.Chat.System.Invariant.{IsConserved, update-IsServed, with_writes-IsServed, same_buffers}
use learnuv.Chat.System.Clients.{same_client-IsConserved, types-IsConserved, prints-IsConserved}

hears-IsConserved :
    (s : System) (i : ℕ) (x rest : Bytes) (ws : List Write) (t : Server)
    → IsConserved s
    → (s.peers i).up ≡ x ++ rest
    → length x < 2 ^ 32
    → on_read s.server i (count (length x)) x ≡ ok (ws, t)
    → IsConserved (record {
      server = t;
      peers =
          with_writes ws
            (update s.peers i (record (s.peers i) { gone = (s.peers i).gone ++ x; up = rest }));
      arrivals = s.arrivals ++ (i, x) ∷ [];
      heard = s.heard ++ x;
      told = s.told ++ ws;
      clients = s.clients;
      readings = s.readings ++ (s.clients, x) ∷ [];
    })
hears-IsConserved s i x rest ws t h comes small e =
    let r = on_read-Heard s.server t i x ws h.safe small e in
    let all : contents t.buf ≡ frames (texts (h.delivered ++ r.messages)) =
      r.holds
      ∙ ap (λ y. y ++ frames (texts r.messages)) h.holds
      ∙ sym (frames-texts_append h.delivered r.messages) in
    let whole = all ∙ frames-texts_append h.delivered r.messages in
    record {
      safe = r.safe;
      delivered = h.delivered ++ r.messages;
      reads = Decodes-append x r.messages (contents t.codec.buffer) h.reads r.reads;
      holds = all;
      oldest =
          All-append (IsOldest (frames (texts (h.delivered ++ r.messages)))) s.told ws
            (subst (λ y. All (IsOldest y) s.told) (sym (frames-texts_append h.delivered r.messages))
              (IsOldest-append (frames (texts h.delivered)) (frames (texts r.messages)) s.told
                h.oldest))
            (subst (λ y. All (IsOldest y) ws) all r.oldest);
      posted =
          subst
            (λ y.
              IsPosted (s.readings ++ (s.clients, x) ∷ []) (contents t.codec.buffer) y
                (s.told ++ ws) (h.delivered ++ r.messages))
            (sym (frames-texts_append h.delivered r.messages))
            (IsPosted-append x (contents t.codec.buffer) (frames (texts r.messages)) s.clients ws
              r.messages h.posted r.reads
              (subst IsDistinct (sym h.present) h.safe.registered.distinct)
              (subst (λ y. IsFitting y (texts r.messages)) whole r.fits)
              (r.sends ∙ ap₂ (λ cs y. broadcasts cs y (texts r.messages)) (sym h.present) whole));
      present = h.present ∙ sym r.conns;
      served =
          with_writes-IsServed s.told ws
            (update s.peers i (record (s.peers i) { gone = (s.peers i).gone ++ x; up = rest }))
            (update-IsServed s.told s.peers i
              (record (s.peers i) { gone = (s.peers i).gone ++ x; up = rest })
              (record {
                ready = (h.served i).ready;
                in_order = (h.served i).in_order;
                reads = (h.served i).reads;
                well = (h.served i).well;
                fronts = (h.served i).fronts;
                sent =
                    append_assoc (s.peers i).gone x rest
                    ∙ ap (λ y. (s.peers i).gone ++ y) (sym comes)
                    ∙ (h.served i).sent;
              })
              h.served);
    }

on_connection-joined :
    (s t : Server) (status : ℤ) (got : Bool) (accepted : ℤ)
    → on_connection s status got accepted ≡ ok t
    → t.conns ≡ joined status s.connections s.conns
on_connection-joined s t status got accepted e =
    elim (on_connection-conns s t status got accepted e) [
      | inl ((k, failed), same) ↦ same ∙ ap (λ z. joined z s.connections s.conns) (sym failed)
      | inr ((n, came), more) ↦ more ∙ ap (λ z. joined z s.connections s.conns) (sym came)
    ]

Step-IsConserved : {s t : System} → Step s t → IsConserved s → IsConserved t
Step-IsConserved {s} (joins status got accepted {t = t} e) h =
    let (safe, codec, buf) = on_connection-SafeAround s.server t status got accepted h.safe e in
    same_buffers s t (joined status s.server.connections s.clients) h safe
      (ap (joined status s.server.connections) h.present
        ∙ sym (on_connection-joined s.server t status got accepted e))
      codec buf
Step-IsConserved {s} (leaves i {ws = ws} {t = t} e) h =
    let (safe, codec, buf) = on_read_eof-SafeAround s.server t i ws h.safe e in
    same_buffers s t (without i s.clients) h safe
      (ap (without i) h.present
        ∙ without-erase i s.server.conns h.safe.registered.distinct
        ∙ on_read_eof-erase s.server t i ws e)
      codec buf
Step-IsConserved {s} (fails i k base small short e) h =
    let (_, stops, _) = on_read_error s.server i k base h.safe.well.codec_ready.valid small short in
    absurd (ground arith)
Step-IsConserved {s} (hangs_up i nread base {ms = ms} {c = c} ended e) h =
    let (none_printed, same) = on_read_tcp-SameBuffers (s.peers i).client c nread base ms ended e in
    same_client-IsConserved s i c ((s.peers i).printed ++ ms) h
      (ap (λ x. (s.peers i).printed ++ x) none_printed ∙ append-nil (s.peers i).printed) same
Step-IsConserved {s} (has_written i status) h =
    same_client-IsConserved s i (on_write_end (s.peers i).client status) (s.peers i).printed h refl
      (on_write_end-SameBuffers (s.peers i).client status)
Step-IsConserved {s} (types i nread base {ss = ss} {c = c} e) h =
    types-IsConserved s i nread base ss c h e
Step-IsConserved {s} (hears i x rest {ws = ws} {t = t} comes small e) h =
    hears-IsConserved s i x rest ws t h comes small e
Step-IsConserved {s} (prints i x rest {ms = ms} {c = c} e small returns) h =
    prints-IsConserved s i x rest ms c h e small returns

-- In every state of every run of the chat, whatever is typed, whichever connections end or fail,
-- and however the bytes are cut and the reads of the clients are interleaved, as long as no process
-- stops: the server has delivered exactly the messages that its reads, joined in their order,
-- contain; its writes are the broadcasts of these messages, one after the other, each to exactly
-- the clients that had joined and not left when the read came that completes the message, and each
-- write is a beginning of the frames of the texts delivered so far; the registered connections are
-- the clients that have joined and not left; and each client has read a beginning of what was
-- written to its connection, in order and without loss, and printed exactly the messages that this
-- beginning contains. The server has read a beginning of what each client has written, in order and
-- without loss, and each of these writes is a beginning of the client's buffer of frames.
pub Run-IsConserved : {s : System} → Run s → IsConserved s
Run-IsConserved begins = record {
  safe = start-IsSafe;
  delivered = [];
  reads = pending (inl (omega arith));
  holds = refl;
  oldest = tt;
  posted = record { posts = []; there = silence; messages = refl; writes = refl; each = tt };
  present = refl;
  served = λ i. record {
    ready = new_codec-IsReady;
    in_order = refl;
    reads = pending (inl (omega arith));
    well = record { valid = new-IsValid 1024 (omega arith); unread = refl };
    fronts = tt;
    sent = refl;
  };
}
Run-IsConserved (then_step r step) = Step-IsConserved step (Run-IsConserved r)
