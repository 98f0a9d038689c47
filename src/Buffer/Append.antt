-- ===== src/Buffer/Append.antt =====
-- `append`: which bytes the buffer holds afterwards, and when the process goes down instead.
use native.Mathlib.Decide.{dec_le}
use learnuv.Base.{
  ℕ, ◌+◌, ◌-◌, ◌≤◌, ◌<◌, ◌≡◌, refl, ◌⊎◌, inl, inr, ◌↔◌, ◌++◌, arith, Bytes, length, take, replicate,
  overwrite, length-append, length-take, length-replicate, length-overwrite, take_all, take-append,
  drop-append, take-overwrite, assertion, length_error, ok, fail, suc, ◌^◌, Failure, out_of_range,
}
use learnuv.Buffer.{
  Buffer, max_size, make_space, move_to_front, resize, readable_bytes, writeable_bytes,
  prependable_bytes, ensure_writable_bytes, append,
}
use learnuv.Buffer.Inv.{IsValid, contents}

-- The buffer after `ds` is written to memory `mem` at the write index.
abbrev written : Buffer → Bytes → Bytes → Buffer
written b mem ds = record b {
  buffer = overwrite b.writer_index ds mem;
  writer_index = b.writer_index + length ds;
}

module _ {b : Buffer} (v : IsValid b) where
  -- Moving the bytes to the front never passes its own assertion, unless there is nothing to gain.
  move_to_front_fails : 0 < b.reader_index → move_to_front b ≡ fail assertion
  unfolding move_to_front readable_bytes
  move_to_front_fails h = ground arith

  make_space_fails :
      (len : ℕ)
      → length b.buffer - b.writer_index < len
      → len ≤ length b.buffer - b.writer_index + b.reader_index
      → make_space b len ≡ fail assertion
  unfolding make_space writeable_bytes prependable_bytes
  make_space_fails len h k = ground (arith, move_to_front_fails)

  resize_ok :
      (n : ℕ)
      → n ≤ max_size
      → resize b.buffer n ≡ ok (take n b.buffer ++ replicate (n - length b.buffer) 0)
  unfolding resize
  resize_ok n h = ground arith

  resize_fails : (n : ℕ) → max_size < n → resize b.buffer n ≡ fail length_error
  unfolding resize
  resize_fails n h = ground arith

  -- The four ways in which an append can go.
  append_room :
      (xs : Bytes)
      → b.writer_index + length xs ≤ length b.buffer
      → append b xs (length xs) ≡ ok (written b b.buffer xs)
  unfolding append ensure_writable_bytes writeable_bytes
  append_room xs h = ground (arith, take_all (length xs) xs)

  append_grow :
      (xs : Bytes)
      → length b.buffer - b.writer_index + b.reader_index < length xs
      → b.writer_index + length xs ≤ max_size
      → append b xs (length xs)
        ≡ ok (
            written b
              (take (b.writer_index + length xs) b.buffer
                ++ replicate (b.writer_index + length xs - length b.buffer) 0)
              xs)
  unfolding append ensure_writable_bytes make_space writeable_bytes prependable_bytes resize
  append_grow xs h k = ground (
    arith,
    take_all (length xs) xs,
    length-append (take (b.writer_index + length xs) b.buffer)
        (replicate (b.writer_index + length xs - length b.buffer) 0),
    length-take (b.writer_index + length xs) b.buffer,
    length-replicate {A = ℕ} (b.writer_index + length xs - length b.buffer) 0,
  )

  pub append_too_long :
      (xs : Bytes)
      → length b.buffer - b.writer_index + b.reader_index < length xs
      → max_size < b.writer_index + length xs
      → length xs ≤ max_size
      → append b xs (length xs) ≡ fail length_error
  unfolding append ensure_writable_bytes make_space writeable_bytes prependable_bytes resize
  append_too_long xs h k m = ground arith

  pub append_aborts :
      (xs : Bytes)
      → length b.buffer - b.writer_index < length xs
      → length xs ≤ length b.buffer - b.writer_index + b.reader_index
      → append b xs (length xs) ≡ fail assertion
  unfolding append ensure_writable_bytes writeable_bytes
  append_aborts xs h k = ground (arith, make_space_fails (length xs))

  -- Writing behind the contents extends them, if the memory has the old bytes in front and is long
  -- enough.
  written_lem :
      (mem xs : Bytes)
      → take b.writer_index mem ≡ take b.writer_index b.buffer
      → b.writer_index + length xs ≤ length mem
      → length mem ≤ max_size
      → IsValid (written b mem xs) × (contents (written b mem xs) ≡ contents b ++ xs)
  written_lem mem xs same fits small = (
    record {
      ordered = omega arith;
      inside = omega (arith, length-overwrite b.writer_index xs mem);
      small = omega (arith, length-overwrite b.writer_index xs mem);
    },
    rw (take-overwrite b.writer_index _ xs mem fits refl, same)
        (drop-append b.reader_index (take b.writer_index b.buffer) xs
          (omega (arith, length-take b.writer_index b.buffer))),
  )

  grown_lem :
      (n : ℕ)
      → b.writer_index ≤ n
      → length b.buffer ≤ n
      → (take b.writer_index (take n b.buffer ++ replicate (n - length b.buffer) 0)
          ≡ take b.writer_index b.buffer)
        × (length (take n b.buffer ++ replicate (n - length b.buffer) 0) ≡ n)
  grown_lem n h k = rw (take_all n b.buffer k) (
    take-append b.writer_index b.buffer _ (omega arith),
    omega (
      arith,
      length-append b.buffer (replicate (n - length b.buffer) 0),
      length-replicate {A = ℕ} (n - length b.buffer) 0,
    ),
  )

-- What an append needs in order not to stop the process: room behind the write index, or so little
-- room, the read part included, that the vector is resized.
abbrev pub IsAppendable : Buffer → ℕ → Type 0
IsAppendable b n =
    (b.writer_index + n ≤ length b.buffer)
    ⊎ ((length b.buffer - b.writer_index + b.reader_index < n) × (b.writer_index + n ≤ max_size))

-- On a valid buffer an append of bytes for which there is room, or for which the vector is resized
-- (below its greatest size), succeeds: the buffer stays valid, and its readable bytes are the old
-- ones followed by the new ones. The read index does not move, and the memory does not shrink.
pub append_lem :
    {b : Buffer} (xs : Bytes)
    → IsValid b
    → IsAppendable b (length xs)
    → (c : Buffer) × (append b xs (length xs) ≡ ok c)
      × IsValid c
      × (contents c ≡ contents b ++ xs)
      × (c.writer_index ≡ b.writer_index + length xs)
      × (length b.buffer ≤ length c.buffer)
      × (c.reader_index ≡ b.reader_index)
append_lem {b} xs v (inl room) = (
  written b b.buffer xs,
  append_room v xs room,
  (written_lem v b.buffer xs refl room v.small).0,
  (written_lem v b.buffer xs refl room v.small).1,
  refl,
  omega (arith, length-overwrite b.writer_index xs b.buffer),
  refl,
)
append_lem {b} xs v (inr (little, max)) =
    let n = b.writer_index + length xs in
    let g = grown_lem v n (omega arith) (omega arith) in
    let mem = take n b.buffer ++ replicate (n - length b.buffer) 0 in
    let w = written_lem v mem xs g.0 (omega arith) (omega arith) in
    (
      written b mem xs,
      append_grow v xs little max,
      w.0,
      w.1,
      refl,
      omega (arith, length-overwrite b.writer_index xs mem),
      refl,
    )

-- On a valid buffer an append of at most `max_size` bytes fails an assertion exactly when the bytes
-- do not fit behind the write index but would fit into the free space together with the part that
-- is already read: `makeSpace` then moves the bytes to the front and leaves the write index where
-- it was.
pub append_aborts_iff :
    {b : Buffer} (xs : Bytes)
    → IsValid b
    → length xs ≤ max_size
    → (append b xs (length xs) ≡ fail assertion) ↔ (
        (length b.buffer - b.writer_index < length xs)
        × (length xs ≤ length b.buffer - b.writer_index + b.reader_index))
append_aborts_iff {b} xs v small = (
  λ e. ground (arith, append_room v xs, append_grow v xs, append_too_long v xs),
  λ h. append_aborts v xs h.0 h.1,
)

-- A buffer from which nothing was read is always resized in time.
pub IsAppendable-unread :
    (b : Buffer) (n : ℕ)
    → b.writer_index ≤ length b.buffer
    → b.reader_index ≡ 0
    → b.writer_index + n ≤ max_size
    → IsAppendable b n
IsAppendable-unread b n inside h room = elim (dec_le (b.writer_index + n) (length b.buffer)) [
  | yes fits ↦ inl fits
  | no over ↦ inr (omega arith, room)
]

module _ {b : Buffer} (v : IsValid b) (base : Bytes) (k : ℕ) (small : k < 2 ^ 31)
    (short : length base < 2 ^ 32) where
  append_wraps : k < b.writer_index → append b base (2 ^ 64 - k - 1) ≡ fail out_of_range
  unfolding append ensure_writable_bytes make_space writeable_bytes prependable_bytes resize
  append_wraps h = ground (
    arith,
    length-append (take (b.writer_index - (k + 1)) b.buffer)
        (replicate (b.writer_index - (k + 1) - length b.buffer) 0),
    length-take (b.writer_index - (k + 1)) b.buffer,
    length-replicate {A = ℕ} (b.writer_index - (k + 1) - length b.buffer) 0,
  )

  append_overlong : b.writer_index ≤ k → append b base (2 ^ 64 - k - 1) ≡ fail length_error
  unfolding append ensure_writable_bytes make_space writeable_bytes prependable_bytes resize
  append_overlong h = ground arith

  -- A negative number taken for a length never returns.
  pub append_negative :
      (f : Failure) × (append b base (2 ^ 64 - k - 1) ≡ fail f)
      × (((b.writer_index ≤ k) × (f ≡ length_error)) ⊎ ((k < b.writer_index) × (f ≡ out_of_range)))
  append_negative = elim (dec_le (suc k) b.writer_index) [
    | yes h ↦ (out_of_range, append_wraps h, inr (omega arith, refl))
    | no h ↦ (length_error, append_overlong (omega arith), inl (omega arith, refl))
  ]
