-- ===== src/Chat/System/Clients.antt =====
-- What the callbacks of a client keep in a run of the chat.
use learnuv.Base.{
  ℕ, ◌^◌, ◌<◌, ◌≡◌, sym, ap, subst, ◌∙◌, List, ◌++◌, append_assoc, Bytes, length, All, All-append,
  ok, concat, concat-append,
}
use learnuv.Buffer.Inv.{contents, IsValid}
use learnuv.Codec.Stream.{Decodes, Decodes-append}
use learnuv.Codec.Feed.{IsReady}
use learnuv.Uv.{count, Nread}
use learnuv.Chat.Wire.Fronts.{IsFront, IsFront-append}
use learnuv.Chat.Client.{Sent, Client, on_read_stdin, on_read_tcp}
use learnuv.Chat.Client.Pieces.{sent_bytes}
use learnuv.Chat.Client.Typed.{on_read_stdin-Typed}
use learnuv.Chat.Client.Reads.{on_read_tcp-Printed, SameBuffers}
use learnuv.Chat.System.{System, update}
use learnuv.Chat.System.Invariant.{IsConserved, update-IsServed}

-- A client whose buffers stay the same.
pub same_client-IsConserved :
    (s : System) (i : ℕ) (c : Client) (printed : List Bytes)
    → IsConserved s
    → printed ≡ (s.peers i).printed
    → SameBuffers (s.peers i).client c
    → IsConserved (record s {
      peers = update s.peers i (record (s.peers i) { client = c; printed = printed });
    })
same_client-IsConserved s i c printed h all (codec, buffer) =
    let p = h.served i in
    let old = s.peers i in
    let p' = record (s.peers i) { client = c; printed = printed } in
    record {
      safe = h.safe;
      delivered = h.delivered;
      reads = h.reads;
      holds = h.holds;
      oldest = h.oldest;
      posted = h.posted;
      present = h.present;
      served =
          update-IsServed s.told s.peers i p'
            (record {
              ready = subst IsReady (sym codec) p.ready;
              in_order = p.in_order;
              reads =
                  subst (λ k. Decodes old.received printed (contents k.buffer)) (sym codec)
                    (subst (λ x. Decodes old.received x (contents old.client.codec.buffer))
                      (sym all) p.reads);
              well = record {
                valid = subst IsValid (sym buffer) p.well.valid;
                unread = ap (λ b. b.reader_index) buffer ∙ p.well.unread;
              };
              fronts = subst (λ b. All (IsFront (contents b) 1024) old.asked) (sym buffer) p.fronts;
              sent = p.sent;
            })
            h.served;
    }

pub types-IsConserved :
    (s : System) (i : ℕ) (nread : Nread) (base : Bytes) (ss : List Sent) (c : Client)
    → IsConserved s
    → on_read_stdin (s.peers i).client nread base ≡ ok (ss, c)
    → IsConserved (record s {
      peers = update s.peers i (record (s.peers i) {
        client = c;
        asked = (s.peers i).asked ++ sent_bytes ss;
        up = (s.peers i).up ++ concat (sent_bytes ss);
      });
    })
types-IsConserved s i nread base ss c h e =
    let p = h.served i in
    let typed = on_read_stdin-Typed (s.peers i).client c nread base ss p.well e in
    let codec = sym typed.codec in
    let old = s.peers i in
    let p' = record (s.peers i) {
      client = c;
      asked = (s.peers i).asked ++ sent_bytes ss;
      up = (s.peers i).up ++ concat (sent_bytes ss);
    } in
    record {
      safe = h.safe;
      delivered = h.delivered;
      reads = h.reads;
      holds = h.holds;
      oldest = h.oldest;
      posted = h.posted;
      present = h.present;
      served =
          update-IsServed s.told s.peers i p'
            (record {
              ready = subst IsReady codec p.ready;
              in_order = p.in_order;
              reads =
                  subst (λ k. Decodes (s.peers i).received (s.peers i).printed (contents k.buffer))
                    codec p.reads;
              well = typed.well;
              fronts =
                  All-append (IsFront (contents c.buffer) 1024) old.asked (sent_bytes ss)
                    (subst (λ y. All (IsFront y 1024) old.asked) (sym typed.holds)
                      (IsFront-append (contents old.client.buffer) typed.more 1024 old.asked
                        p.fronts))
                    typed.fronts;
              sent =
                  sym (append_assoc old.gone old.up (concat (sent_bytes ss)))
                  ∙ ap (λ y. y ++ concat (sent_bytes ss)) p.sent
                  ∙ sym (concat-append old.asked (sent_bytes ss));
            })
            h.served;
    }

pub prints-IsConserved :
    (s : System) (i : ℕ) (x rest : Bytes) (ms : List Bytes) (c : Client)
    → IsConserved s
    → (s.peers i).down ≡ x ++ rest
    → length x < 2 ^ 32
    → on_read_tcp (s.peers i).client (count (length x)) x ≡ ok (ms, c)
    → IsConserved (record s {
      peers = update s.peers i (record (s.peers i) {
        client = c;
        down = rest;
        received = (s.peers i).received ++ x;
        printed = (s.peers i).printed ++ ms;
      });
    })
prints-IsConserved s i x rest ms c h e small returns =
    let p = h.served i in
    let r = on_read_tcp-Printed (s.peers i).client c x ms p.ready small returns in
    let p' = record (s.peers i) {
      client = c;
      down = rest;
      received = (s.peers i).received ++ x;
      printed = (s.peers i).printed ++ ms;
    } in
    record {
      safe = h.safe;
      delivered = h.delivered;
      reads = h.reads;
      holds = h.holds;
      oldest = h.oldest;
      posted = h.posted;
      present = h.present;
      served =
          update-IsServed s.told s.peers i p'
            (record {
              ready = r.ready;
              in_order =
                  append_assoc (s.peers i).received x rest
                  ∙ ap (λ y. (s.peers i).received ++ y) (sym e)
                  ∙ p.in_order;
              reads = Decodes-append x ms (contents c.codec.buffer) p.reads r.reads;
              well = record {
                valid = subst IsValid (sym r.typed) p.well.valid;
                unread = ap (λ b. b.reader_index) r.typed ∙ p.well.unread;
              };
              fronts =
                  subst (λ b. All (IsFront (contents b) 1024) (s.peers i).asked) (sym r.typed)
                    p.fronts;
              sent = p.sent;
            })
            h.served;
    }
