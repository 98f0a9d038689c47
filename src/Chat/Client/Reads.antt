-- ===== src/Chat/Client/Reads.antt =====
-- What the chat client prints of the stream that it is sent.
use learnuv.Base.{
  ◌<◌, ◌≡◌, refl, sym, ap, ap₂, List, [], ◌∷◌, ◌++◌, arith, Bytes, length, All, Outcome, ok, ◌>>=◌,
  ℕ, ◌+◌, ◌≤◌, subst, ◌∙◌, inl, append-nil, take, drop, concat, take-append-drop, bind-ok, ◌^◌,
}
use learnuv.Base.Int.{ℤ, pos, negsuc}
use learnuv.Buffer.Inv.{contents}
use learnuv.Codec.{Codec, on_uv_read}
use learnuv.Codec.Stream.{Decodes, Decodes-unique, frames, IsDeliverable, frames-Decodes, pending}
use learnuv.Codec.Feed.{
  feed, feed-Split, feed-none, IsReady, feed_lem, on_uv_read_lem, on_uv_read-IsAppendable,
}
use learnuv.Uv.{count, Nread, eof, error, IsEnd}
use learnuv.Chat.Client.{Client, on_read_tcp, on_write_end}

-- Reads of the connection by a client: all messages that it prints.
pub tcp_reads : Client → List Bytes → Outcome (List Bytes × Client)
unfolding on_read_tcp
tcp_reads c [] = ok ([], c)
tcp_reads c (x ∷ xs) = do
  r ← on_read_tcp c (count (length x)) x
  r' ← tcp_reads r.1 xs
  ok (r.0 ++ r'.0, r'.1)

pub on_read_tcp-none : (c : Client) → on_read_tcp c (count 0) [] ≡ ok ([], c)
unfolding on_read_tcp
on_read_tcp-none c = refl

pub on_read_tcp-codec :
    (c : Client) (x : Bytes) (ms : List Bytes) (d : Codec)
    → 0 < length x
    → on_uv_read c.codec (length x) x ≡ ok (ms, d)
    → on_read_tcp c (count (length x)) x ≡ ok (ms, record c { codec = d })
unfolding on_read_tcp
on_read_tcp-codec c [] ms d h e = absurd (omega arith)
on_read_tcp-codec c (b ∷ x) ms d h e = rw e refl

-- A client prints what its codec makes of the reads.
pub tcp_reads-feed :
    (c : Client) (xs ms : List Bytes) (d : Codec)
    → feed c.codec xs ≡ ok (ms, d)
    → All (λ x. 0 < length x) xs
    → tcp_reads c xs ≡ ok (ms, record c { codec = d })
unfolding tcp_reads
tcp_reads-feed c [] ms d e h =
    let (none_read, same) = feed-none c.codec ms d e in
    ap₂ (λ ms d. ok (ms, record c { codec = d })) (sym none_read) same
tcp_reads-feed c (x ∷ xs) ms d e (some_data, h) =
    let p = feed-Split c.codec x xs ms d e in
    rw (on_read_tcp-codec c x p.first p.between some_data p.reads_first) (
      rw (tcp_reads-feed (record c { codec = p.between }) xs p.others d p.reads_others h)
        (ap (λ ms. ok (ms, record c { codec = d })) (sym p.joined)))

-- What neither prints nor touches the buffers.
abbrev pub SameBuffers : Client → Client → Type 0
SameBuffers c c' = (c'.codec ≡ c.codec) × (c'.buffer ≡ c.buffer)

pub on_read_tcp-SameBuffers :
    (c c' : Client) (nread : Nread) (base : Bytes) (ms : List Bytes)
    → IsEnd nread
    → on_read_tcp c nread base ≡ ok (ms, c')
    → (ms ≡ []) × SameBuffers c c'
unfolding on_read_tcp
on_read_tcp-SameBuffers c c' (count n) base ms h e = absurd h
on_read_tcp-SameBuffers c c' eof base ms h e = ground arith
on_read_tcp-SameBuffers c c' (error k) base ms h e = ground arith

pub on_write_end-SameBuffers : (c : Client) (status : ℤ) → SameBuffers c (on_write_end c status)
unfolding on_write_end
on_write_end-SameBuffers c (pos n) = (refl, refl)
on_write_end-SameBuffers c (negsuc e) = (refl, refl)

-- A stream in pieces: one more byte than each number says, and what is left.
abbrev pub cut : List ℕ → Bytes → List Bytes
cut sizes [] = []
cut [] (b ∷ x) = (b ∷ x) ∷ []
cut (k ∷ sizes) (b ∷ x) = (b ∷ take k x) ∷ cut sizes (drop k x)

concat-cut : (sizes : List ℕ) (x : Bytes) → concat (cut sizes x) ≡ x
concat-cut [] [] = refl
concat-cut (k ∷ sizes) [] = refl
concat-cut [] (b ∷ x) = append-nil (b ∷ x)
concat-cut (k ∷ sizes) (b ∷ x) =
    ap (λ y. b ∷ (take k x ++ y)) (concat-cut sizes (drop k x)) ∙ ap (◌∷◌ b) (take-append-drop k x)

cut-All : (sizes : List ℕ) (x : Bytes) → All (λ y. 0 < length y) (cut sizes x)
cut-All [] [] = tt
cut-All (k ∷ sizes) [] = tt
cut-All [] (b ∷ x) = (omega arith, tt)
cut-All (k ∷ sizes) (b ∷ x) = (omega arith, cut-All sizes (drop k x))

-- A client between two messages from the server.
pub record IsWaiting (c : Client) : Type 0 where
  pub ready : IsReady c.codec
  pub nothing_read : contents c.codec.buffer ≡ []

-- A waiting client prints the messages whose frames it is sent, in whatever pieces.
pub tcp_reads-frames :
    (c : Client) (sizes : List ℕ) (ms : List Bytes)
    → IsWaiting c
    → IsDeliverable ms []
    → c.codec.buffer.writer_index + length (frames ms) ≤ length c.codec.buffer.buffer
    → (c' : Client) × (tcp_reads c (cut sizes (frames ms)) ≡ ok (ms, c')) × IsWaiting c'
tcp_reads-frames c sizes ms w deliverable room =
    let whole = concat-cut sizes (frames ms) in
    let f = feed_lem c.codec (cut sizes (frames ms)) w.ready (rw whole room) in
    let reads =
      subst (λ x. Decodes x f.messages (contents f.after.buffer))
        (ap₂ (λ x y. x ++ y) w.nothing_read (whole ∙ sym (append-nil (frames ms)))) f.reads in
    let (all, left) = Decodes-unique reads (frames-Decodes ms [] deliverable (inl (omega arith))) in
    (
      record c { codec = f.after },
      tcp_reads-feed c (cut sizes (frames ms)) ms f.after
          (f.returns ∙ ap (λ ms. ok (ms, f.after)) all) (cut-All sizes (frames ms)),
      record { ready = f.ready; nothing_read = left },
    )

-- What a read of `x` prints, where it returns.
pub record Printed (c : Client) (x : Bytes) (ms : List Bytes) (c' : Client) : Type 0 where
  pub typed : c'.buffer ≡ c.buffer
  pub ready : IsReady c'.codec
  pub reads : Decodes (contents c.codec.buffer ++ x) ms (contents c'.codec.buffer)

pub on_read_tcp-Printed :
    (c c' : Client) (x : Bytes) (ms : List Bytes)
    → IsReady c.codec
    → length x < 2 ^ 32
    → on_read_tcp c (count (length x)) x ≡ ok (ms, c')
    → Printed c x ms c'
unfolding on_read_tcp
on_read_tcp-Printed c c' [] ms v small e =
    let none_printed : [] ≡ ms = ground arith in
    let eq : c ≡ c' = ground arith in
    subst (λ ms. Printed c [] ms c') none_printed
      (subst (Printed c [] []) eq (record {
        typed = refl;
        ready = v;
        reads =
            subst (λ x. Decodes x [] (contents c.codec.buffer))
              (sym (append-nil (contents c.codec.buffer))) (pending v.idle);
      }))
on_read_tcp-Printed c c' (b ∷ x) ms v small e =
    let (r, read, e₁) = bind-ok (on_uv_read c.codec (length (b ∷ x)) (b ∷ x)) _ (ms, c') e in
    let d =
      on_uv_read_lem c.codec (b ∷ x) v
        (on_uv_read-IsAppendable c.codec (b ∷ x) r v (omega arith) read) in
    let same : ok (d.messages, d.after) ≡ ok r = sym d.returns ∙ read in
    let messages : d.messages ≡ r.0 = ground arith in
    let after : d.after ≡ r.1 = ground arith in
    let all : r.0 ≡ ms = ground arith in
    let eq : record c { codec = r.1 } ≡ c' = ground arith in
    subst (Printed c (b ∷ x) ms) eq (record {
      typed = refl;
      ready = subst IsReady after d.ready;
      reads =
          subst (λ k. Decodes (contents c.codec.buffer ++ (b ∷ x)) ms (contents k.buffer)) after
            (subst (λ ms. Decodes (contents c.codec.buffer ++ (b ∷ x)) ms (contents d.after.buffer))
              (messages ∙ all) d.reads);
    })
