-- ===== src/Buffer/Words.antt =====
-- `writeUInt32`, `peekUInt32` and `readUInt32`: 32-bit integers in network byte order.
use learnuv.Base.{
  ℕ, ◌+◌, ◌^◌, ◌≤◌, ◌<◌, ◌≡◌, ap, ◌∙◌, [], ◌++◌, arith, length, drop, assertion, ok, fail, subst,
}
use learnuv.Base.Word.{
  be32, store32-htonl, be32_value, be32_value-be32, ntohl-load32, be32_value-take,
}
use learnuv.Buffer.{Buffer, peek, peek_uint32, retrieve_uint32, read_uint32, write_uint32, append}
use learnuv.Buffer.Inv.{IsValid, contents, readable_bytes-length}
use learnuv.Buffer.Append.{append_lem, IsAppendable}
use learnuv.Buffer.Returns.{Appended, append-Appended}
use learnuv.Buffer.Retrieve.{
  retrieved, retrieve_ok, retrieved-IsValid, contents-retrieved, take-peek,
}

-- `append` of the stored word, with room for it.
pub write_uint32_lem :
    {b : Buffer} (u : ℕ)
    → IsValid b
    → IsAppendable b 4
    → (c : Buffer) × (write_uint32 b u ≡ ok c)
      × IsValid c
      × (contents c ≡ contents b ++ be32 u)
      × (c.writer_index ≡ b.writer_index + 4)
      × (length b.buffer ≤ length c.buffer)
      × (c.reader_index ≡ b.reader_index)
unfolding write_uint32
write_uint32_lem u v h = rw store32-htonl (append_lem (be32 u) v h)

pub write_uint32-Appended :
    {b c : Buffer} (u : ℕ) → IsValid b → write_uint32 b u ≡ ok c → Appended b (be32 u) c
unfolding write_uint32
write_uint32-Appended {b} {c} u v e =
    append-Appended (be32 u) v (omega arith) (subst (λ x. append b x 4 ≡ ok c) (store32-htonl u) e)

pub peek_uint32_ok :
    {b : Buffer}
    → IsValid b
    → 4 ≤ length (contents b)
    → peek_uint32 b ≡ ok (be32_value (contents b))
unfolding peek_uint32
peek_uint32_ok {b} v h = ground (
  arith,
  readable_bytes-length v,
  ntohl-load32 (peek b),
  be32_value-take (peek b),
  be32_value-take (contents b),
  take-peek 4 v h,
)

-- On a valid buffer `readUInt32` returns the number that the oldest four bytes stand for in network
-- order and leaves the bytes behind them; with fewer than four bytes it fails its assertion.
pub read_uint32_lem :
    {b : Buffer}
    → IsValid b
    → (4 ≤ length (contents b)
        → (c : Buffer) × (read_uint32 b ≡ ok (be32_value (contents b), c))
          × IsValid c
          × (contents c ≡ drop 4 (contents b)))
      × (length (contents b) < 4 → read_uint32 b ≡ fail assertion)
unfolding read_uint32 retrieve_uint32 peek_uint32
read_uint32_lem {b} v = (
  (λ h. (
    retrieved b 4,
    ground (arith, retrieve_ok 4 v h, peek_uint32_ok v h),
    retrieved-IsValid 4 v,
    contents-retrieved b 4 h,
  )),
  λ h. ground (arith, readable_bytes-length v),
)

-- A 32-bit number written to an empty valid buffer with room for it is read back, and the buffer is
-- empty again.
pub read_uint32-write_uint32 :
    {b : Buffer} (u : ℕ)
    → IsValid b
    → contents b ≡ []
    → IsAppendable b 4
    → u < 2 ^ 32
    → (c d : Buffer) × (write_uint32 b u ≡ ok c) × (read_uint32 c ≡ ok (u, d)) × (contents d ≡ [])
read_uint32-write_uint32 u v e room small =
    let (c, wrote, vc, holds, _, _, _) = write_uint32_lem u v room in
    let holds' : contents c ≡ be32 u = holds ∙ ap (λ xs. xs ++ be32 u) e in
    let (d, red, vd, left) = (read_uint32_lem vc).0 (omega (arith, ap length holds')) in
    (
      c,
      d,
      wrote,
      red ∙ ap (λ n. ok (n, d)) (ap be32_value holds' ∙ be32_value-be32 u [] small),
      left ∙ ap (drop 4) holds',
    )
