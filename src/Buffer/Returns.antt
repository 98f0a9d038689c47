-- ===== src/Buffer/Returns.antt =====
-- What is known of a buffer where `append` returned.
use native.Mathlib.Decide.{dec_le}
use learnuv.Base.{◌+◌, ◌-◌, ◌≤◌, ◌≡◌, sym, subst, ◌∙◌, inl, inr, arith, Bytes, length, ok, ◌++◌}
use learnuv.Buffer.{Buffer, max_size, append}
use learnuv.Buffer.Inv.{IsValid, contents}
use learnuv.Buffer.Append.{append_too_long, append_aborts, IsAppendable, append_lem}

-- Where an append succeeds, it could.
pub append-IsAppendable :
    {b c : Buffer} (xs : Bytes)
    → IsValid b
    → length xs ≤ max_size
    → append b xs (length xs) ≡ ok c
    → IsAppendable b (length xs)
append-IsAppendable {b} xs v small e =
    elim (dec_le (b.writer_index + length xs) (length b.buffer)) [
      | yes fits ↦ inl fits
      | no over ↦ elim (dec_le (length xs) (length b.buffer - b.writer_index + b.reader_index)) [
        | yes moved ↦ absurd (ground (arith, append_aborts v xs (omega arith) moved))
        | no little ↦ elim (dec_le (b.writer_index + length xs) max_size) [
          | yes grows ↦ inr (omega arith, grows)
          | no more ↦
              absurd (ground (arith, append_too_long v xs (omega arith) (omega arith) small))
        ]
      ]
    ]

-- The buffer is then valid, with the bytes behind what it held.
abbrev pub Appended : Buffer → Bytes → Buffer → Type 0
Appended b xs c = IsValid c × (contents c ≡ contents b ++ xs) × (c.reader_index ≡ b.reader_index)

pub append-Appended :
    {b c : Buffer} (xs : Bytes)
    → IsValid b
    → length xs ≤ max_size
    → append b xs (length xs) ≡ ok c
    → Appended b xs c
append-Appended {b} {c} xs v small e =
    let (d, added, vd, holds, _, _, same) = append_lem xs v (append-IsAppendable xs v small e) in
    let result : ok d ≡ ok c = sym added ∙ e in
    let eq : d ≡ c = ground arith in subst (Appended b xs) eq (vd, holds, same)
