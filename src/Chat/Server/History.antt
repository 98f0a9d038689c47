-- ===== src/Chat/Server/History.antt =====
-- What the chat server sends over a history of messages.
use learnuv.Base.{
  ℕ, ◌+◌, ◌≤◌, ◌≡◌, refl, sym, ap, ap₂, ◌∙◌, List, [], ◌∷◌, ◌++◌, append-nil, append_assoc, arith,
  Bytes, length, take, All, length-append, take-append, Outcome, ok, zero, suc, subst, concat,
}
use learnuv.Buffer.{max_size}
use learnuv.Buffer.Inv.{contents}
use learnuv.Codec.Stream.{
  framed, frames, IsPending, Decodes, Decodes-unique, IsDeliverable, frames-Decodes,
}
use learnuv.Codec.Feed.{feed_lem}
use learnuv.Uv.{before_zero, length-before_zero}
use learnuv.Chat.Server.{Write, Server, deliver}
use learnuv.Chat.Server.Broadcast.{to_all, IsWell, broadcast_lem, texts}
use learnuv.Chat.Server.Arrivals.{Arrival, on_reads, pieces, IsData, on_reads-deliver}

-- For each message, as many of the oldest bytes of `all` as its frame has, to every connection.
abbrev pub broadcasts : List ℕ → Bytes → List Bytes → List Write
broadcasts cs all [] = []
broadcasts cs all (m ∷ ms) = to_all cs (take (length m + 4) all) ++ broadcasts cs all ms

-- The same bytes to every connection, so many times.
abbrev pub repeated : List ℕ → ℕ → Bytes → List Write
repeated cs zero bytes = []
repeated cs (suc k) bytes = to_all cs bytes ++ repeated cs k bytes

-- What `Connection::send` has room for.
abbrev pub IsSendable : Bytes → Type 0
IsSendable text = length text + 4 ≤ 8192

pub record Delivered (s : Server) (ms : List Bytes) (out : Outcome (List Write × Server))
    : Type 0 where
  pub after : Server
  pub returns :
      out ≡ ok (broadcasts s.conns (contents s.buf ++ frames (texts ms)) (texts ms), after)
  pub well : IsWell after
  pub kept : contents after.buf ≡ contents s.buf ++ frames (texts ms)
  pub conns : after.conns ≡ s.conns
  pub codec : after.codec ≡ s.codec

pub deliver-Delivered :
    (s : Server) (ms : List Bytes)
    → IsWell s
    → All IsSendable (texts ms)
    → s.buf.writer_index + length (frames (texts ms)) ≤ max_size
    → Delivered s ms (deliver s ms)
unfolding deliver
deliver-Delivered s [] w small room = record {
  after = s;
  returns = refl;
  well = w;
  kept = sym (append-nil (contents s.buf));
  conns = refl;
  codec = refl;
}
deliver-Delivered s (m ∷ ms) w small room =
    let text = before_zero m in
    let later = frames (texts ms) in
    let (t, sent, wt, holds, same, at_end, codec) =
      broadcast_lem s m w small.0 (omega (arith, length-append (framed text) later)) in
    let d = deliver-Delivered t ms wt small.1 (omega (arith, length-append (framed text) later)) in
    let all : contents t.buf ++ later ≡ contents s.buf ++ (framed text ++ later) =
      ap (λ x. x ++ later) holds ∙ append_assoc (contents s.buf) (framed text) later in
    let first : take (length text + 4) (contents s.buf ++ framed text)
        ≡ take (length text + 4) (contents s.buf ++ (framed text ++ later)) =
      sym (
        take-append (length text + 4) (contents s.buf ++ framed text) later
          (omega (arith, length-append (contents s.buf) (framed text))))
      ∙ ap (take (length text + 4)) (append_assoc (contents s.buf) (framed text) later) in
    record {
      after = d.after;
      returns = rw sent (
          rw d.returns (
            ap₂
              (λ x cs.
                ok
                  (to_all s.conns x ++ broadcasts cs (contents t.buf ++ later) (texts ms), d.after))
              first same
            ∙ ap
                (λ x. ok (
                  to_all s.conns (take (length text + 4) (contents s.buf ++ (framed text ++ later)))
                      ++ broadcasts s.conns x (texts ms),
                  d.after,
                ))
                all));
      well = d.well;
      kept = d.kept ∙ all;
      conns = d.conns ∙ same;
      codec = d.codec ∙ codec;
    }

pub small-IsSendable : (ms : List Bytes) → All (λ m. length m ≤ 4096) ms → All IsSendable (texts ms)
small-IsSendable [] h = tt
small-IsSendable (m ∷ ms) h = (omega (arith, length-before_zero m), small-IsSendable ms h.1)

IsDeliverable-small :
    (ms : List Bytes) (t : Bytes) → IsDeliverable ms t → All (λ m. length m ≤ 4096) ms
IsDeliverable-small [] t h = tt
IsDeliverable-small (m ∷ ms) t (short, _, h) = (short, IsDeliverable-small ms t h)

-- The frames of messages that arrive in any reads of any connections, behind what the codec holds
-- and with an unfinished rest at the end: for each message in order, every connection is sent as
-- many bytes as the frame of its text (what stands in front of its first zero byte) has, but always
-- the oldest ones of the broadcast buffer, which keeps the frames of all these texts. The rest
-- stays in the codec, and no connection is lost. The buffers must have room for all of this.
pub on_reads-broadcasts :
    (s : Server) (xs : List Arrival) (ms : List Bytes) (rest : Bytes)
    → IsWell s
    → All IsData xs
    → IsDeliverable ms rest
    → IsPending rest
    → contents s.codec.buffer ++ concat (pieces xs) ≡ frames ms ++ rest
    → s.codec.buffer.writer_index + length (concat (pieces xs)) ≤ length s.codec.buffer.buffer
    → s.buf.writer_index + length (frames (texts ms)) ≤ max_size
    → (t : Server) × (on_reads s xs
        ≡ ok (broadcasts s.conns (contents s.buf ++ frames (texts ms)) (texts ms), t))
      × IsWell t
      × (contents t.codec.buffer ≡ rest)
      × (contents t.buf ≡ contents s.buf ++ frames (texts ms))
      × (t.conns ≡ s.conns)
on_reads-broadcasts s xs ms rest w some_data deliverable rests cut room room' =
    let f = feed_lem s.codec (pieces xs) w.codec_ready room in
    let reads = subst (λ x. Decodes x f.messages (contents f.after.buffer)) cut f.reads in
    let (all, left) = Decodes-unique reads (frames-Decodes ms rest deliverable rests) in
    let s' = record s { codec = f.after } in
    let d =
      deliver-Delivered s' ms
        (record { buf_valid = w.buf_valid; unread = w.unread; codec_ready = f.ready })
        (small-IsSendable ms (IsDeliverable-small ms rest deliverable)) room' in
    (
      d.after,
      on_reads-deliver s xs f.messages f.after f.returns some_data
          ∙ ap (deliver s') all
          ∙ d.returns,
      d.well,
      ap (λ c. contents c.buffer) d.codec ∙ left,
      d.kept,
      d.conns,
    )

-- With messages of one length `n`, the oldest bytes are those of the first frame every time.
pub broadcasts-same :
    (cs : List ℕ) (n : ℕ) (all first : Bytes) (ms : List Bytes)
    → take (n + 4) all ≡ first
    → All (λ m. length m ≡ n) ms
    → broadcasts cs all ms ≡ repeated cs (length ms) first
broadcasts-same cs n all first [] e h = refl
broadcasts-same cs n all first (m ∷ ms) e (same, h) =
    rw (same, e) (ap (λ ws. to_all cs first ++ ws) (broadcasts-same cs n all first ms e h))
