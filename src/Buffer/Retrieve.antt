-- ===== src/Buffer/Retrieve.antt =====
-- `retrieve`, `retrieveAsString` and `peek`: what is taken from the front, and the assertion.
use learnuv.Base.{
  ℕ, ◌+◌, ◌≤◌, ◌<◌, ◌≡◌, refl, sym, ap, ◌∙◌, inl, inr, ◌++◌, arith, Bytes, length, take, drop,
  length-take, drop_all, take-append, drop-append, take-append-drop, drop-drop, ltb, if◌then◌else◌,
  Bool-cases, ltb-false→le, assertion, ok, fail,
}
use learnuv.Buffer.{Buffer, retrieve_all, retrieve, peek, retrieve_as_string, retrieve_uint32}
use learnuv.Buffer.Inv.{IsValid, contents, length-contents, readable_bytes-length}

-- The two cases of a successful `retrieve`.
pub retrieved : Buffer → ℕ → Buffer
unfolding retrieve_all
retrieved b n =
    if ltb n (length (contents b))
    then record b { reader_index = b.reader_index + n }
    else retrieve_all b

pub retrieve_ok :
    {b : Buffer} (n : ℕ) → IsValid b → n ≤ length (contents b) → retrieve b n ≡ ok (retrieved b n)
unfolding retrieve retrieved
retrieve_ok {b} n v h = ground (arith, readable_bytes-length v, length-contents v)

pub retrieved-IsValid : {b : Buffer} (n : ℕ) → IsValid b → IsValid (retrieved b n)
unfolding retrieved retrieve_all
retrieved-IsValid n v = ground (arith, length-contents v)

-- The bytes behind the first `n` stay, in both cases.
pub contents-retrieved :
    (b : Buffer) (n : ℕ) → n ≤ length (contents b) → contents (retrieved b n) ≡ drop n (contents b)
unfolding retrieved retrieve_all
contents-retrieved b n h = elim (Bool-cases (ltb n (length (contents b)))) [
  | inl more ↦
      rw more
        (sym (drop-drop b.reader_index n (b.reader_index + n) (take b.writer_index b.buffer) refl))
  | inr all ↦ rw all (sym (drop_all n (contents b) (ltb-false→le all)))
]

-- `peek` shows the contents first, and then whatever memory follows.
pub take-peek :
    {b : Buffer} (n : ℕ)
    → IsValid b
    → n ≤ length (contents b)
    → take n (peek b) ≡ take n (contents b)
unfolding peek
take-peek {b} n v h =
    ap (λ xs. take n (drop r xs)) (sym (take-append-drop w b.buffer))
    ∙ ap (take n)
        (drop-append r (take w b.buffer) (drop w b.buffer) (omega (arith, length-take w b.buffer)))
    ∙ take-append n (contents b) (drop w b.buffer) h
  where
    r : ℕ
    r = b.reader_index

    w : ℕ
    w = b.writer_index

-- On a valid buffer, `retrieve` of no more than what is readable succeeds, keeps the buffer valid
-- and drops so many bytes from the front; of more than that it fails its assertion.
pub retrieve_lem :
    {b : Buffer} (n : ℕ)
    → IsValid b
    → (n ≤ length (contents b)
        → (c : Buffer) × (retrieve b n ≡ ok c) × IsValid c × (contents c ≡ drop n (contents b)))
      × (length (contents b) < n → retrieve b n ≡ fail assertion)
unfolding retrieve
retrieve_lem {b} n v = (
  (λ h. (retrieved b n, retrieve_ok n v h, retrieved-IsValid n v, contents-retrieved b n h)),
  λ h. ground (arith, readable_bytes-length v),
)

pub retrieve_as_string_ok :
    {b : Buffer} (n : ℕ)
    → IsValid b
    → n ≤ length (contents b)
    → retrieve_as_string b n ≡ ok (take n (contents b), retrieved b n)
unfolding retrieve_as_string
retrieve_as_string_ok {b} n v h =
    ground (arith, readable_bytes-length v, take-peek n v h, retrieve_ok n v h)

-- On a valid buffer that holds at least `n` bytes, `retrieveAsString` returns exactly the oldest
-- `n` of them, and a valid buffer that holds the others.
pub retrieve_as_string_splits :
    {b : Buffer} (n : ℕ)
    → IsValid b
    → n ≤ length (contents b)
    → (s : Bytes) × (c : Buffer) × (retrieve_as_string b n ≡ ok (s, c))
      × (length s ≡ n)
      × (s ++ contents c ≡ contents b)
      × IsValid c
retrieve_as_string_splits {b} n v h = (
  take n (contents b),
  retrieved b n,
  retrieve_as_string_ok n v h,
  omega (arith, length-take n (contents b)),
  rw (contents-retrieved b n h) (take-append-drop n (contents b)),
  retrieved-IsValid n v,
)

pub retrieve_uint32_ok :
    {b : Buffer} → IsValid b → 4 ≤ length (contents b) → retrieve_uint32 b ≡ ok (retrieved b 4)
unfolding retrieve_uint32
retrieve_uint32_ok v h = retrieve_ok 4 v h

-- The memory stays as it is, and the write index does not grow: it goes back to zero when the last
-- byte is taken.
pub retrieved_memory :
    (b : Buffer) (n : ℕ)
    → ((retrieved b n).buffer ≡ b.buffer) × ((retrieved b n).writer_index ≤ b.writer_index)
unfolding retrieved retrieve_all
retrieved_memory b n = ground arith
