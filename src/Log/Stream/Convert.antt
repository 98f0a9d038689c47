-- ===== src/Log/Stream/Convert.antt =====
-- `convert` writes the decimal digits of the magnitude.
use mathlib.Core.List.{reverse, reverse-append}
use learnuv.Base.{
  ℕ, suc, ◌+◌, ◌%◌, ◌^◌, ◌≤◌, ◌<◌, ◌≡◌, ap, ◌∙◌, [], ◌++◌, append-nil, arith, Bytes, length, ok,
  zero, refl, ◌==◌, ◌/◌, ◌∷◌, append_assoc,
}
use learnuv.Base.Int.{ℤ, pos, negsuc, magnitude, rem, with_sign, quot}
use learnuv.Base.Decimal.{
  decimal_fuel, decimal, value, value-decimal_fuel, length-decimal_fuel, tenth, decimal_fuel_step,
}
use learnuv.Log.Stream.{zero_at, convert_loop, convert, is_zero}

-- The table has the digits on both sides of `zero`.
digit_of : (sign : ℤ) (r : ℕ) → r < 10 → zero_at (with_sign sign r) ≡ b'0' + r
unfolding zero_at
digit_of (pos m) zero h = refl
digit_of (pos m) (suc zero) h = refl
digit_of (pos m) (suc (suc zero)) h = refl
digit_of (pos m) (suc (suc (suc zero))) h = refl
digit_of (pos m) (suc (suc (suc (suc zero)))) h = refl
digit_of (pos m) (suc (suc (suc (suc (suc zero))))) h = refl
digit_of (pos m) (suc (suc (suc (suc (suc (suc zero)))))) h = refl
digit_of (pos m) (suc (suc (suc (suc (suc (suc (suc zero))))))) h = refl
digit_of (pos m) (suc (suc (suc (suc (suc (suc (suc (suc zero)))))))) h = refl
digit_of (pos m) (suc (suc (suc (suc (suc (suc (suc (suc (suc zero))))))))) h = refl
digit_of (negsuc m) zero h = refl
digit_of (negsuc m) (suc zero) h = refl
digit_of (negsuc m) (suc (suc zero)) h = refl
digit_of (negsuc m) (suc (suc (suc zero))) h = refl
digit_of (negsuc m) (suc (suc (suc (suc zero)))) h = refl
digit_of (negsuc m) (suc (suc (suc (suc (suc zero))))) h = refl
digit_of (negsuc m) (suc (suc (suc (suc (suc (suc zero)))))) h = refl
digit_of (negsuc m) (suc (suc (suc (suc (suc (suc (suc zero))))))) h = refl
digit_of (negsuc m) (suc (suc (suc (suc (suc (suc (suc (suc zero)))))))) h = refl
digit_of (negsuc m) (suc (suc (suc (suc (suc (suc (suc (suc (suc zero))))))))) h = refl
digit_of (pos m) (suc (suc (suc (suc (suc (suc (suc (suc (suc (suc n)))))))))) h =
    absurd (omega arith)
digit_of (negsuc m) (suc (suc (suc (suc (suc (suc (suc (suc (suc (suc n)))))))))) h =
    absurd (omega arith)

magnitude-with_sign : (sign : ℤ) (n : ℕ) → magnitude (with_sign sign n) ≡ n
magnitude-with_sign (pos m) n = refl
magnitude-with_sign (negsuc m) zero = refl
magnitude-with_sign (negsuc m) (suc n) = refl

is_zero-magnitude : (i : ℤ) → is_zero i ≡ (magnitude i == 0)
is_zero-magnitude (pos zero) = refl
is_zero-magnitude (pos (suc n)) = ground arith
is_zero-magnitude (negsuc n) = ground arith

some_fuel : (fuel n : ℕ) → 10 ≤ n → n < 10 ^ suc fuel → 0 < fuel
some_fuel zero n h lt = absurd (omega arith)
some_fuel (suc fuel) n h lt = omega arith

convert_loop-decimal :
    (fuel : ℕ) (i : ℤ) (buf : Bytes)
    → 0 < fuel
    → magnitude i < 10 ^ fuel
    → convert_loop fuel i buf ≡ ok (decimal_fuel fuel (magnitude i) ++ reverse buf)
unfolding convert_loop
convert_loop-decimal zero i buf h lt = absurd (omega arith)
convert_loop-decimal (suc fuel) i buf h lt = ground (
  arith,
  is_zero-magnitude (quot i 10),
  magnitude-with_sign i (magnitude i / 10),
  digit_of i (magnitude i % 10) (omega arith),
  decimal_fuel_step fuel (magnitude i),
  reverse-append buf (zero_at (rem i 10) ∷ []),
  some_fuel fuel (magnitude i),
  tenth (magnitude i) fuel lt,
  convert_loop-decimal fuel (quot i 10) (buf ++ zero_at (rem i 10) ∷ []),
  append_assoc (decimal_fuel fuel (magnitude i / 10)) ((b'0' + magnitude i % 10) ∷ [])
      (reverse buf),
)

-- `convert` always returns: it writes the decimal digits of the magnitude of the number, from one
-- to ten for an `int`; the sign is lost.
pub convert-decimal :
    (i : ℤ)
    → magnitude i < 2 ^ 32
    → (convert i ≡ ok (decimal (magnitude i)))
      × (0 < length (decimal (magnitude i)))
      × (length (decimal (magnitude i)) ≤ 10)
      × (value (decimal (magnitude i)) ≡ magnitude i)
unfolding convert
convert-decimal i h =
    let l = length-decimal_fuel 20 9 (magnitude i) (omega arith) (omega arith) in
    (
      convert_loop-decimal 20 i [] (omega arith) (omega arith)
          ∙ ap ok (append-nil (decimal (magnitude i))),
      l.0,
      l.1,
      value-decimal_fuel 20 (magnitude i) (omega arith),
    )
