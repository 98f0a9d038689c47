-- ===== src/Log/FixedBuffer.antt =====
-- `FixedBuffer<SIZE>` of common/log/LogStream.h: `SIZE` bytes, and a position that only grows.
use native.Mathlib.Decide.{dec_lt}
use learnuv.Base.{
  ℕ, ◌+◌, ◌-◌, ◌≤◌, ◌<◌, ◌≡◌, refl, sym, ap, ◌∙◌, ◌++◌, append_assoc, arith, Bytes, length, take,
  replicate, overwrite, length-append, length-take, take_all, take-append, take-overwrite,
  take-take, ltb, if◌then◌else◌, [], append-nil, length-overwrite, ◌⊎◌, inl, inr, ◌∷◌,
}

pub record FixedBuffer : Type 0 where
  pub memory : Bytes
  pub cur : ℕ

-- The memory is not initialised; what it holds is an argument.
abbrev pub fresh : Bytes → FixedBuffer
fresh memory = record { memory = memory; cur = 0 }

-- `int avail()`: it is not negative, since the position never passes the end (`IsValid`).
pub avail : FixedBuffer → ℕ
avail b = length b.memory - b.cur

pub add : FixedBuffer → ℕ → FixedBuffer
add b len = record b { cur = b.cur + len }

-- `append(buf, len)`: all of the bytes, or none if they would fill the buffer.
pub append : FixedBuffer → Bytes → FixedBuffer
unfolding avail
append b buf =
    if ltb (length buf) (avail b)
    then record b { memory = overwrite b.cur buf b.memory; cur = b.cur + length buf }
    else b

pub reset : FixedBuffer → FixedBuffer
reset b = record b { cur = 0 }

pub bzero : FixedBuffer → FixedBuffer
bzero b = record b { memory = replicate (length b.memory) 0 }

pub to_string : FixedBuffer → Bytes
to_string b = take b.cur b.memory

-- At least one byte is left.
abbrev pub IsValid : FixedBuffer → Type 0
IsValid b = b.cur < length b.memory

-- Bytes are put at the position, some of them in front of the new position `cur + n`.
pub put_lem :
    (b : FixedBuffer) (ds zs : Bytes)
    → b.cur + (length ds + length zs) ≤ length b.memory
    → to_string (record b { memory = overwrite b.cur (ds ++ zs) b.memory; cur = b.cur + length ds })
      ≡ to_string b ++ ds
unfolding to_string
put_lem b ds zs h =
    sym (
      take-take (b.cur + length ds) (b.cur + length (ds ++ zs))
        (overwrite b.cur (ds ++ zs) b.memory) (omega (arith, length-append ds zs)))
    ∙ ap (take (b.cur + length ds)) (
        take-overwrite b.cur (b.cur + length (ds ++ zs)) (ds ++ zs) b.memory
          (omega (arith, length-append ds zs)) refl)
    ∙ ap (take (b.cur + length ds)) (sym (append_assoc (take b.cur b.memory) ds zs))
    ∙ take-append (b.cur + length ds) (take b.cur b.memory ++ ds) zs
        (omega (arith, length-append (take b.cur b.memory) ds, length-take b.cur b.memory))
    ∙ take_all (b.cur + length ds) (take b.cur b.memory ++ ds)
        (omega (arith, length-append (take b.cur b.memory) ds, length-take b.cur b.memory))

-- `append` adds all of the bytes if more than so many are left, and changes nothing otherwise. The
-- buffer never fills up, and its size stays.
pub append_lem :
    (b : FixedBuffer) (buf : Bytes)
    → IsValid b
    → (to_string (append b buf)
        ≡ (if ltb (length buf) (avail b) then to_string b ++ buf else to_string b))
      × IsValid (append b buf)
      × (length (append b buf).memory ≡ length b.memory)
unfolding append avail
append_lem b buf v = ground (
  arith,
  length-overwrite b.cur buf b.memory,
  ap (λ ds. to_string (record b { memory = overwrite b.cur ds b.memory; cur = b.cur + length buf }))
      (append-nil buf),
  put_lem b buf [],
)

-- The two cases of `append`.
pub append_cases :
    (b : FixedBuffer) (buf : Bytes)
    → IsValid b
    → ((b.cur + length buf < length b.memory)
        × (to_string (append b buf) ≡ to_string b ++ buf)
        × ((append b buf).cur ≡ b.cur + length buf))
      ⊎ ((length b.memory ≤ b.cur + length buf) × (append b buf ≡ b))
unfolding append avail
append_cases b buf v = elim (dec_lt (b.cur + length buf) (length b.memory)) [
  | yes room ↦ inl (ground (arith, append_lem b buf v))
  | no full ↦ inr (ground arith)
]

pub avail_lem : (b : FixedBuffer) → avail b ≡ length b.memory - b.cur
unfolding avail
avail_lem b = refl

-- Bytes with a terminator behind them are put, and the position moves past the bytes.
pub formatted : FixedBuffer → Bytes → FixedBuffer
unfolding add
formatted b ds = add (record b { memory = overwrite b.cur (ds ++ 0 ∷ []) b.memory }) (length ds)

pub formatted_lem :
    (b : FixedBuffer) (ds : Bytes)
    → b.cur + length ds < length b.memory
    → (to_string (formatted b ds) ≡ to_string b ++ ds)
      × ((formatted b ds).cur ≡ b.cur + length ds)
      × (length (formatted b ds).memory ≡ length b.memory)
unfolding formatted
formatted_lem b ds h =
    (put_lem b ds (0 ∷ []) (omega arith), refl, length-overwrite b.cur (ds ++ 0 ∷ []) b.memory)

pub to_string-le : (b : FixedBuffer) → length (to_string b) ≤ b.cur
unfolding to_string
to_string-le b = omega (arith, length-take b.cur b.memory)

pub to_string-fresh : (memory : Bytes) → to_string (fresh memory) ≡ []
unfolding to_string
to_string-fresh memory = refl
