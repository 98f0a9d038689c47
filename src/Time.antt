-- ===== src/Time.antt =====
-- common/time/Timestamp.h and Timestamp.cpp: microseconds since the epoch, and their print.
mod Tests
use learnuv.Base.{
  ℕ, suc, ◌+◌, ◌-◌, ◌*◌, ◌/◌, ◌%◌, ◌≤◌, ◌<◌, ◌≡◌, ◌∷◌, ◌++◌, arith, Bytes, length, take, replicate,
  length-append, length-replicate, take_all,
}
use learnuv.Base.Int.{ℤ, pos, negsuc, quot, rem}
use learnuv.Base.Decimal.{decimal, zero_padded, length-decimal_fuel, decimal_digit}

abbrev pub micros_per_second : ℕ
micros_per_second = 1000 * 1000

-- `Timestamp`; the `int64_t` is an integer here, so its range is a hypothesis where it matters.
pub record Timestamp : Type 0 where
  pub micros : ℤ

-- `now()`, from the two fields that `gettimeofday` fills in
pub now : ℕ → ℕ → Timestamp
now tv_sec tv_usec = record { micros = pos (tv_sec * micros_per_second + tv_usec) }

-- `%ld` and `%06ld`: the sign counts as one of the six places.
pub signed_text : ℤ → Bytes
signed_text (pos n) = decimal n
signed_text (negsuc n) = b'-' ∷ decimal (suc n)

pub padded_text : ℤ → Bytes
padded_text (pos n) = zero_padded 6 (decimal n)
padded_text (negsuc n) = b'-' ∷ zero_padded 5 (decimal (suc n))

-- `toString()`; `snprintf` writes at most 30 characters.
pub to_string : Timestamp → Bytes
unfolding signed_text padded_text
to_string t = take 30 (
    signed_text (quot t.micros micros_per_second)
    ++ b'.' ∷ padded_text (rem t.micros micros_per_second))

-- A time less than a second before the epoch is printed with its sign behind the point, where a
-- reader of the fraction would not look for it.
pub to_string_before_epoch :
    (n : ℕ)
    → n < 999999
    → to_string (record { micros = negsuc n })
      ≡ b'0' ∷ b'.' ∷ b'-' ∷ zero_padded 5 (decimal (suc n))
unfolding to_string
to_string_before_epoch n h =
    rw (whole, part) (rw (decimal_digit 0 (omega arith)) (take_all 30 _ (omega (arith, five))))
  where
    whole : suc n / micros_per_second ≡ 0
    whole = omega arith

    part : suc n % micros_per_second ≡ suc n
    part = omega arith

    five : length (zero_padded 5 (decimal (suc n))) ≤ 6
    five = omega (
      arith,
      length-append (replicate (5 - length (decimal (suc n))) b'0') (decimal (suc n)),
      length-replicate {A = ℕ} (5 - length (decimal (suc n))) b'0',
      (length-decimal_fuel 20 5 (suc n) (omega arith) (omega arith)).1,
    )
