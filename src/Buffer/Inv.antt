-- ===== src/Buffer/Inv.antt =====
-- The representation invariant of `Buffer`, and the bytes that it holds.
use learnuv.Base.{
  ℕ, ◌-◌, ◌≤◌, ◌≡◌, arith, Bytes, length, take, drop, length-take, length-drop, length-replicate,
}
use learnuv.Buffer.{Buffer, max_size, new, readable_bytes, writeable_bytes}

pub record IsValid (b : Buffer) : Type 0 where
  pub ordered : b.reader_index ≤ b.writer_index
  pub inside : b.writer_index ≤ length b.buffer
  pub small : length b.buffer ≤ max_size

-- The readable bytes, oldest first.
abbrev pub contents : Buffer → Bytes
contents b = drop b.reader_index (take b.writer_index b.buffer)

pub length-contents :
    {b : Buffer} → IsValid b → length (contents b) ≡ b.writer_index - b.reader_index
length-contents {b} v = omega (
  arith,
  length-drop b.reader_index (take b.writer_index b.buffer),
  length-take b.writer_index b.buffer,
)

pub readable_bytes-length : {b : Buffer} → IsValid b → readable_bytes b ≡ length (contents b)
unfolding readable_bytes
readable_bytes-length v = omega (arith, length-contents v)

pub writeable_bytes_lem :
    {b : Buffer} → IsValid b → writeable_bytes b ≡ length b.buffer - b.writer_index
unfolding writeable_bytes
writeable_bytes_lem v = omega arith

pub new-IsValid : (n : ℕ) → n ≤ max_size → IsValid (new n)
new-IsValid n h = record {
  ordered = omega arith;
  inside = omega arith;
  small = omega (arith, length-replicate {A = ℕ} n 0);
}
