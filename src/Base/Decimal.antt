-- ===== src/Base/Decimal.antt =====
-- Decimal numerals as the `printf` family writes them.
use native.Mathlib.Nat.{pow-suc}
use learnuv.Base.{
  ℕ, zero, suc, ◌+◌, ◌-◌, ◌*◌, ◌/◌, ◌%◌, ◌^◌, ◌≤◌, ◌<◌, ◌≡◌, refl, inl, inr, [], ◌∷◌, ◌++◌, arith,
  Bytes, length, replicate, All, All-append, ltb, if◌then◌else◌, Bool-cases, ltb→lt, length-append,
  length-replicate,
}

-- The digits of `n` without leading zeros, at most `fuel` of them.
pub decimal_fuel : ℕ → ℕ → Bytes
decimal_fuel zero n = []
decimal_fuel (suc fuel) n =
    let front = decimal_fuel fuel (n / 10) in
    if ltb n 10 then (b'0' + n) ∷ [] else front ++ (b'0' + n % 10) ∷ []

-- `%d` of a number of at most 64 bits, which has at most 20 digits.
abbrev pub decimal : ℕ → Bytes
decimal n = decimal_fuel 20 n

-- `%0kd`
abbrev pub zero_padded : ℕ → Bytes → Bytes
zero_padded k ds = replicate (k - length ds) b'0' ++ ds

-- The number that digits spell behind `acc`.
pub value_from : ℕ → Bytes → ℕ
value_from acc [] = acc
value_from acc (c ∷ cs) = value_from (acc * 10 + (c - b'0')) cs

abbrev pub value : Bytes → ℕ
value ds = value_from 0 ds

abbrev pub IsDigit : ℕ → Type 0
IsDigit c = (b'0' ≤ c) × (c ≤ b'9')

pub value_from-append :
    (xs ys : Bytes) (acc : ℕ) → value_from acc (xs ++ ys) ≡ value_from (value_from acc xs) ys
unfolding value_from
value_from-append [] ys acc = refl
value_from-append (x ∷ xs) ys acc = value_from-append xs ys (acc * 10 + (x - b'0'))

pub tenth : (n k : ℕ) → n < 10 ^ suc k → n / 10 < 10 ^ k
tenth n k h = omega (arith, pow-suc 10 k)

-- The digits spell the number, if the fuel is enough for it.
pub value-decimal_fuel : (fuel n : ℕ) → n < 10 ^ fuel → value (decimal_fuel fuel n) ≡ n
unfolding decimal_fuel value_from
value-decimal_fuel zero n h = omega arith
value-decimal_fuel (suc fuel) n h = elim (Bool-cases (ltb n 10)) [
  | inl few ↦ rw few (omega arith)
  | inr more ↦
      rw (more, value_from-append (decimal_fuel fuel (n / 10)) ((b'0' + n % 10) ∷ []) 0)
        (omega (arith, value-decimal_fuel fuel (n / 10) (tenth n fuel h)))
]

pub decimal_fuel-All : (fuel n : ℕ) → All IsDigit (decimal_fuel fuel n)
unfolding decimal_fuel
decimal_fuel-All zero n = tt
decimal_fuel-All (suc fuel) n = elim (Bool-cases (ltb n 10)) [
  | inl few ↦ rw few ((omega arith, omega (arith, ltb→lt few)), tt)
  | inr more ↦ rw more (
      All-append IsDigit (decimal_fuel fuel (n / 10)) _ (decimal_fuel-All fuel (n / 10))
        ((omega arith, omega arith), tt))
]

-- A number below 10 ^ (k + 1) has at least one digit and at most k + 1, given the fuel.
pub length-decimal_fuel :
    (fuel k n : ℕ)
    → k < fuel
    → n < 10 ^ suc k
    → (0 < length (decimal_fuel fuel n)) × (length (decimal_fuel fuel n) ≤ suc k)
unfolding decimal_fuel
length-decimal_fuel zero k n h lt = absurd (omega arith)
length-decimal_fuel (suc fuel) zero n h lt = ground arith
length-decimal_fuel (suc fuel) (suc k) n h lt = ground (
  arith,
  length-decimal_fuel fuel k (n / 10) (omega arith) (tenth n (suc k) lt),
  length-append (decimal_fuel fuel (n / 10)) ((b'0' + n % 10) ∷ []),
)

pub length-zero_padded : (k : ℕ) (ds : Bytes) → length ds ≤ k → length (zero_padded k ds) ≡ k
length-zero_padded k ds h = omega (
  arith,
  length-append (replicate (k - length ds) b'0') ds,
  length-replicate {A = ℕ} (k - length ds) b'0',
)

pub value-zeros : (k : ℕ) (ds : Bytes) → value (replicate k b'0' ++ ds) ≡ value ds
unfolding value_from
value-zeros zero ds = refl
value-zeros (suc k) ds = value-zeros k ds

pub decimal_digit : (n : ℕ) → n < 10 → decimal n ≡ (b'0' + n) ∷ []
unfolding decimal_fuel
decimal_digit n h = ground arith

pub decimal_fuel_step :
    (fuel n : ℕ)
    → decimal_fuel (suc fuel) n
      ≡ (if ltb n 10 then (b'0' + n) ∷ [] else decimal_fuel fuel (n / 10) ++ (b'0' + n % 10) ∷ [])
unfolding decimal_fuel
decimal_fuel_step fuel n = refl
