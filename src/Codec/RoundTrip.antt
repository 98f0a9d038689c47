-- ===== src/Codec/RoundTrip.antt =====
-- From `encode` over any cut of the bytes to the callbacks.
use learnuv.Base.{
  ◌+◌, ◌^◌, ◌≤◌, ◌<◌, ◌≡◌, sym, ap, subst, ◌∙◌, inl, inr, List, [], ◌++◌, append_assoc, arith,
  Bytes, length, concat, ok, ℕ, ◌⊎◌, bind-ok,
}
use learnuv.Base.Word.{be32, be32_value, be32_value-append}
use learnuv.Buffer.{Buffer, max_size, append, write_uint32}
use learnuv.Buffer.Inv.{contents, new-IsValid, IsValid}
use learnuv.Buffer.Append.{append_lem, IsAppendable, IsAppendable-unread}
use learnuv.Buffer.Returns.{append-Appended, Appended}
use learnuv.Buffer.Words.{write_uint32_lem, write_uint32-Appended}
use learnuv.Codec.{Codec, new_codec, encode}
use learnuv.Codec.Stream.{
  Decodes, Decodes-unique, frames, IsDeliverable, frames-Decodes, IsPending, pending, framed,
}
use learnuv.Codec.Feed.{feed, IsReady, feed_lem}

pub new_codec-IsReady : IsReady new_codec
new_codec-IsReady = record { valid = new-IsValid 8192 (omega arith); idle = inl (omega arith) }

-- A ready codec calls back for the same messages and ends with the same unread bytes, however a
-- stream is cut into pieces, provided that the stream fits behind the write index of its buffer.
pub feed_any_cut :
    (c : Codec) (xs ys : List Bytes)
    → IsReady c
    → concat xs ≡ concat ys
    → c.buffer.writer_index + length (concat xs) ≤ length c.buffer.buffer
    → (ms : List Bytes) × (d e : Codec) × (feed c xs ≡ ok (ms, d))
      × (feed c ys ≡ ok (ms, e))
      × (contents d.buffer ≡ contents e.buffer)
feed_any_cut c xs ys v same room =
    let d = feed_lem c xs v room in
    let e = feed_lem c ys v (rw (← same) room) in
    let u = Decodes-unique d.reads (
      subst (λ s. Decodes (contents c.buffer ++ s) e.messages (contents e.after.buffer)) (sym same)
        e.reads) in
    (d.messages, d.after, e.after, d.returns, rw u.0 e.returns, u.1)

-- Feeding a new codec the frames of deliverable messages and an unreadable rest behind them, cut
-- in any way, never stops the process if they fit into its 8192 bytes: it calls back for exactly
-- those messages, in order, and keeps exactly the rest.
pub feed-frames :
    (ms xs : List Bytes) (t : Bytes)
    → IsDeliverable ms t
    → IsPending t
    → concat xs ≡ frames ms ++ t
    → length (frames ms ++ t) ≤ 8192
    → (c : Codec) × (feed new_codec xs ≡ ok (ms, c)) × IsReady c × (contents c.buffer ≡ t)
feed-frames ms xs t h p cut room =
    let d = feed_lem new_codec xs new_codec-IsReady (rw cut (omega arith)) in
    let u =
      Decodes-unique d.reads (subst (λ s. Decodes s ms t) (sym cut) (frames-Decodes ms t h p)) in
    (d.after, d.returns ∙ ap (λ m. ok (m, d.after)) u.0, d.ready, u.1)

-- A stream that stands at a length over the limit is never read again, whatever comes.
pub refused_IsPending : (s t : Bytes) → 4 < length s → 4096 < be32_value s → IsPending (s ++ t)
refused_IsPending s t more long = inr (inl (rw (be32_value-append s t (omega arith)) long))

-- Once the unread bytes of a ready codec begin with a length above the limit, and at least one byte
-- more, no read calls back again, as long as all that arrives fits behind the write index of its
-- buffer: all these bytes are kept, and no message comes out.
pub feed_refused :
    (c : Codec) (xs : List Bytes)
    → IsReady c
    → 4 < length (contents c.buffer)
    → 4096 < be32_value (contents c.buffer)
    → c.buffer.writer_index + length (concat xs) ≤ length c.buffer.buffer
    → (d : Codec) × (feed c xs ≡ ok ([], d)) × (contents d.buffer ≡ contents c.buffer ++ concat xs)
feed_refused c xs v more long room =
    let d = feed_lem c xs v room in
    let u =
      Decodes-unique d.reads
        (pending (refused_IsPending (contents c.buffer) (concat xs) more long)) in
    (d.after, d.returns ∙ ap (λ m. ok (m, d.after)) u.0, u.1)

-- Where `encode` succeeds: the frame fits, or nothing was ever read from the buffer.
abbrev pub IsEncodable : Buffer → ℕ → Type 0
IsEncodable b n =
    (b.writer_index + 4 + n ≤ length b.buffer)
    ⊎ ((b.reader_index ≡ 0) × (b.writer_index + 4 + n ≤ max_size))

IsEncodable-head : {b : Buffer} (n : ℕ) → IsValid b → IsEncodable b n → IsAppendable b 4
IsEncodable-head n v (inl room) = inl (omega arith)
IsEncodable-head {b} n v (inr h) = IsAppendable-unread b 4 v.inside h.0 (omega arith)

IsEncodable-text :
    (b : Buffer) {c : Buffer} (n : ℕ)
    → IsValid c
    → IsEncodable b n
    → c.writer_index ≡ b.writer_index + 4
    → length b.buffer ≤ length c.buffer
    → c.reader_index ≡ b.reader_index
    → IsAppendable c n
IsEncodable-text b n v (inl room) e f g = inl (omega arith)
IsEncodable-text b {c = c} n v (inr h) e f g =
    IsAppendable-unread c n v.inside (omega arith) (omega arith)

-- `encode` into a valid buffer with room for the frame, or from which nothing was read (and which
-- stays below the greatest size), writes the frame of the message behind what the buffer holds and
-- returns its length. The read index stays.
pub encode_lem :
    {b : Buffer} (m : Bytes)
    → IsValid b
    → length m < 2 ^ 31
    → IsEncodable b (length m)
    → (c : Buffer) × (encode b m ≡ ok (length m + 4, c))
      × IsValid c
      × (contents c ≡ contents b ++ framed m)
      × (c.reader_index ≡ b.reader_index)
      × (c.writer_index ≡ b.writer_index + 4 + length m)
unfolding encode
encode_lem {b} m v small room =
    let (b', wrote, v', holds', at_end', grown', same') =
      write_uint32_lem (length m) v (IsEncodable-head (length m) v room) in
    let (c, added, vc, holds, at_end, _, same) =
      append_lem m v' (IsEncodable-text b (length m) v' room at_end' grown' same') in
    (
      c,
      rw wrote (rw added),
      vc,
      holds ∙ ap (λ s. s ++ m) holds' ∙ append_assoc (contents b) (be32 (length m)) m,
      same ∙ same',
      omega arith,
    )

-- Where `encode` succeeds, it puts the frame behind what the buffer held.
pub encode-length :
    (b : Buffer) (m : Bytes) (n : ℕ) (c : Buffer) → encode b m ≡ ok (n, c) → length m + 4 ≡ n
unfolding encode
encode-length b m n c e =
    let (b', _, e') = bind-ok (write_uint32 b (length m)) _ (n, c) e in
    let (d, _, last) = bind-ok (append b' m (length m)) _ (n, c) e' in ground arith

pub encode-Appended :
    {b : Buffer} (m : Bytes) (n : ℕ) (c : Buffer)
    → IsValid b
    → length m ≤ 4096
    → encode b m ≡ ok (n, c)
    → Appended b (framed m) c × (n ≡ length m + 4)
unfolding encode
encode-Appended {b} m n c v small e =
    let (b', wrote, e') = bind-ok (write_uint32 b (length m)) _ (n, c) e in
    let (d, added, last) = bind-ok (append b' m (length m)) _ (n, c) e' in
    let (v', holds, same) = write_uint32-Appended (length m) v wrote in
    let (vd, holds', same') = append-Appended m v' (omega arith) added in
    let eq : d ≡ c = ground arith in
    let size : length m + 4 ≡ n = ground arith in
    (
      subst (Appended b (framed m)) eq (
        vd,
        holds' ∙ ap (λ x. x ++ m) holds ∙ append_assoc (contents b) (be32 (length m)) m,
        same' ∙ same,
      ),
      sym size,
    )
