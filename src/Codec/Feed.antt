-- ===== src/Codec/Feed.antt =====
-- A codec that is fed a stream in pieces, as `uv_read_start` delivers it.
use learnuv.Base.{
  ℕ, ◌+◌, ◌≤◌, ◌≡◌, refl, sym, ap, subst, inl, List, [], ◌∷◌, ◌++◌, append-nil, append_assoc, arith,
  Bytes, length, concat, length-append, Outcome, ok, ◌>>=◌, Failure, fail, bind-ok, ◌∙◌,
}
use learnuv.Buffer.{readable_bytes, append, max_size}
use learnuv.Buffer.Inv.{IsValid, contents, readable_bytes-length}
use learnuv.Buffer.Append.{append_lem, IsAppendable}
use learnuv.Buffer.Returns.{append-IsAppendable}
use learnuv.Codec.{Codec, on_message, on_uv_read}
use learnuv.Codec.Stream.{IsPending, Decodes, Decodes-IsPending, pending, Decodes-append}
use learnuv.Codec.Decode.{on_message_loop_lem}

-- One `on_uv_read` for each piece: all messages that are called back with.
pub feed : Codec → List Bytes → Outcome (List Bytes × Codec)
feed c [] = ok ([], c)
feed c (x ∷ xs) = do r ← on_uv_read c (length x) x; r' ← feed r.1 xs; ok (r.0 ++ r'.0, r'.1)

-- Between two reads: the buffer is valid, and what it holds cannot be read yet.
pub record IsReady (c : Codec) : Type 0 where
  pub valid : IsValid c.buffer
  pub idle : IsPending (contents c.buffer)

-- What reading `n` more bytes `x` does to a ready codec.
pub record Read (c : Codec) (x : Bytes) (out : Outcome (List Bytes × Codec)) : Type 0 where
  pub messages : List Bytes
  pub after : Codec
  pub returns : out ≡ ok (messages, after)
  pub ready : IsReady after
  pub reads : Decodes (contents c.buffer ++ x) messages (contents after.buffer)
  pub room :
      after.buffer.writer_index + length c.buffer.buffer
      ≤ c.buffer.writer_index + length x + length after.buffer.buffer

pub on_uv_read_lem :
    (c : Codec) (x : Bytes)
    → IsReady c
    → IsAppendable c.buffer (length x)
    → Read c x (on_uv_read c (length x) x)
unfolding on_uv_read on_message
on_uv_read_lem c x v room =
    let (b, appended, vb, holds, at_end, grown, _) = append_lem x v.valid room in
    let d =
      on_message_loop_lem (readable_bytes b + 1) b vb (omega (arith, readable_bytes-length vb)) in
    record {
      messages = d.messages;
      after = record c { buffer = d.left };
      returns = rw appended (rw d.returns);
      ready = record { valid = d.valid; idle = Decodes-IsPending d.reads };
      reads = subst (λ s. Decodes s d.messages (contents d.left)) holds d.reads;
      room = omega (arith, d.no_further, ap (length {A = ℕ}) d.memory, at_end, grown);
    }

-- What feeding the pieces `xs` does to a ready codec.
pub record Fed (c : Codec) (xs : List Bytes) (out : Outcome (List Bytes × Codec)) : Type 0 where
  pub messages : List Bytes
  pub after : Codec
  pub returns : out ≡ ok (messages, after)
  pub ready : IsReady after
  pub reads : Decodes (contents c.buffer ++ concat xs) messages (contents after.buffer)

feed_round :
    (c : Codec) (x : Bytes) (xs : List Bytes) (r : Read c x (on_uv_read c (length x) x))
    → Fed r.after xs (feed r.after xs)
    → Fed c (x ∷ xs) (feed c (x ∷ xs))
unfolding feed
feed_round c x xs r d = record {
  messages = r.messages ++ d.messages;
  after = d.after;
  returns = rw r.returns (rw d.returns);
  ready = d.ready;
  reads =
      subst (λ s. Decodes s (r.messages ++ d.messages) (contents d.after.buffer))
        (append_assoc (contents c.buffer) x (concat xs))
        (Decodes-append (concat xs) d.messages (contents d.after.buffer) r.reads d.reads);
}

-- With room for all the pieces no append stops the process.
pub feed_lem :
    (c : Codec) (xs : List Bytes)
    → IsReady c
    → c.buffer.writer_index + length (concat xs) ≤ length c.buffer.buffer
    → Fed c xs (feed c xs)
unfolding feed
feed_lem c [] v room = record {
  messages = [];
  after = c;
  returns = refl;
  ready = v;
  reads =
      subst (λ s. Decodes s [] (contents c.buffer)) (sym (append-nil (contents c.buffer)))
        (pending v.idle);
}
feed_lem c (x ∷ xs) v room =
    let r = on_uv_read_lem c x v (inl (omega (arith, length-append x (concat xs)))) in
    feed_round c x xs r
      (feed_lem r.after xs r.ready (omega (arith, r.room, length-append x (concat xs))))

-- The two parts of a sequence of reads that succeeds.
pub record Split (c : Codec) (x : Bytes) (xs ms : List Bytes) (last : Codec) : Type 0 where
  pub first : List Bytes
  pub between : Codec
  pub others : List Bytes
  pub reads_first : on_uv_read c (length x) x ≡ ok (first, between)
  pub reads_others : feed between xs ≡ ok (others, last)
  pub joined : ms ≡ first ++ others

pub feed-Split :
    (c : Codec) (x : Bytes) (xs ms : List Bytes) (last : Codec)
    → feed c (x ∷ xs) ≡ ok (ms, last)
    → Split c x xs ms last
unfolding feed
feed-Split c x xs ms last e =
    let (r, first, e') = bind-ok (on_uv_read c (length x) x) _ (ms, last) e in
    let (r', others, e₂) = bind-ok (feed r.1 xs) _ (ms, last) e' in
    let after : r'.1 ≡ last = ground arith in
    record {
      first = r.0;
      between = r.1;
      others = r'.0;
      reads_first = first;
      reads_others = others ∙ ap (λ c. ok (r'.0, c)) after;
      joined = ground arith;
    }

pub feed-none :
    (c : Codec) (ms : List Bytes) (last : Codec)
    → feed c [] ≡ ok (ms, last)
    → (ms ≡ []) × (c ≡ last)
unfolding feed
feed-none c ms last e = ground arith

pub on_uv_read_fails :
    (c : Codec) (n : ℕ) (base : Bytes) (f : Failure)
    → append c.buffer base n ≡ fail f
    → on_uv_read c n base ≡ fail f
unfolding on_uv_read
on_uv_read_fails c n base f e = rw e

-- Where `on_uv_read` returns, its append could.
pub on_uv_read-IsAppendable :
    (c : Codec) (x : Bytes) (r : List Bytes × Codec)
    → IsReady c
    → length x ≤ max_size
    → on_uv_read c (length x) x ≡ ok r
    → IsAppendable c.buffer (length x)
unfolding on_uv_read
on_uv_read-IsAppendable c x r v small e =
    let (b, added, _) = bind-ok (append c.buffer x (length x)) _ r e in
    append-IsAppendable x v.valid small added
