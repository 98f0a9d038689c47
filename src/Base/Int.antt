-- ===== src/Base/Int.antt =====
-- Signed integers over the native numbers, under the library's names.
use learnuv.Base.{ℕ, suc, ◌+◌, ◌-◌, ◌^◌, Bool, ltb, if◌then◌else◌, leb, zero, ◌/◌, ◌%◌}

-- `negsuc n` is -(n + 1).
pub data ℤ : Type 0 where
  pos : ℕ → ℤ
  negsuc : ℕ → ℤ

abbrev pub pos_part : ℤ → ℕ
pos_part (pos n) = n
pos_part (negsuc n) = 0

abbrev pub neg_part : ℤ → ℕ
neg_part (pos n) = 0
neg_part (negsuc n) = suc n

abbrev pub ltb_ℤ : ℤ → ℤ → Bool
ltb_ℤ a b = ltb (pos_part a + neg_part b) (pos_part b + neg_part a)

-- The `int` that a 32-bit pattern stands for, and the `size_t` that an `int` is converted to.
abbrev pub signed32 : ℕ → ℤ
signed32 w = if leb (2 ^ 31) w then negsuc (2 ^ 32 - 1 - w) else pos w

abbrev pub size_of : ℤ → ℕ
size_of (pos n) = n
size_of (negsuc n) = 2 ^ 64 - n - 1

-- `/` and `%` of C++ round towards zero.
abbrev pub with_sign : ℤ → ℕ → ℤ
with_sign (pos m) n = pos n
with_sign (negsuc m) zero = pos 0
with_sign (negsuc m) (suc n) = negsuc n

abbrev pub magnitude : ℤ → ℕ
magnitude (pos n) = n
magnitude (negsuc n) = suc n

abbrev pub quot : ℤ → ℕ → ℤ
quot a d = with_sign a (magnitude a / d)

abbrev pub rem : ℤ → ℕ → ℤ
rem a d = with_sign a (magnitude a % d)
