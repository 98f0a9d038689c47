-- ===== src/Base/Word.antt =====
-- Unsigned machine words as native numbers, and `uint32_t` in memory.
-- The host is little-endian, as x86-64 and arm64 are.
use learnuv.Base.{
  ℕ, ◌+◌, ◌-◌, ◌*◌, ◌/◌, ◌%◌, ◌^◌, ◌≤◌, ◌<◌, ◌≡◌, refl, [], ◌∷◌, ◌++◌, arith, Bytes, length, take,
}

-- `size_t` is 64 bits wide; both operations wrap round.
abbrev pub add_size : ℕ → ℕ → ℕ
add_size a b = (a + b) % 2 ^ 64

abbrev pub sub_size : ℕ → ℕ → ℕ
sub_size a b = (a + 2 ^ 64 - b) % 2 ^ 64

abbrev pub IsByte : ℕ → Type 0
IsByte b = b < 256

-- The four bytes of a `uint32_t` in memory, and the value of the first four bytes of memory. A
-- memory cell holds a byte, so it is read modulo 256.
pub store32 : ℕ → Bytes
store32 u = u % 256 ∷ u / 256 % 256 ∷ u / 2 ^ 16 % 256 ∷ u / 2 ^ 24 % 256 ∷ []

pub load32 : Bytes → ℕ
load32 (a ∷ b ∷ c ∷ d ∷ rest) = a % 256 + b % 256 * 256 + c % 256 * 2 ^ 16 + d % 256 * 2 ^ 24
load32 bytes = 0

-- `htonl` and `ntohl` swap the bytes.
abbrev pub htonl : ℕ → ℕ
htonl u = u % 256 * 2 ^ 24 + u / 256 % 256 * 2 ^ 16 + u / 2 ^ 16 % 256 * 256 + u / 2 ^ 24 % 256

abbrev pub ntohl : ℕ → ℕ
ntohl u = htonl u

-- Network byte order, the most significant byte first.
abbrev pub be32 : ℕ → Bytes
be32 u = u / 2 ^ 24 % 256 ∷ u / 2 ^ 16 % 256 ∷ u / 256 % 256 ∷ u % 256 ∷ []

pub store32-htonl : (u : ℕ) → store32 (htonl u) ≡ be32 u
unfolding store32
store32-htonl u = ground arith

-- The number that four bytes in network order stand for; what follows them does not matter.
abbrev pub be32_value : Bytes → ℕ
be32_value (a ∷ b ∷ c ∷ d ∷ rest) = a % 256 * 2 ^ 24 + b % 256 * 2 ^ 16 + c % 256 * 256 + d % 256
be32_value bytes = 0

pub be32_value-be32 : (u : ℕ) (rest : Bytes) → u < 2 ^ 32 → be32_value (be32 u ++ rest) ≡ u
be32_value-be32 u rest h = omega arith

pub be32_value-lt : (xs : Bytes) → be32_value xs < 2 ^ 32
be32_value-lt [] = omega arith
be32_value-lt (a ∷ []) = omega arith
be32_value-lt (a ∷ b ∷ []) = omega arith
be32_value-lt (a ∷ b ∷ c ∷ []) = omega arith
be32_value-lt (a ∷ b ∷ c ∷ d ∷ rest) = omega arith

pub ntohl-load32 : (xs : Bytes) → ntohl (load32 xs) ≡ be32_value xs
unfolding load32
ntohl-load32 [] = refl
ntohl-load32 (a ∷ []) = refl
ntohl-load32 (a ∷ b ∷ []) = refl
ntohl-load32 (a ∷ b ∷ c ∷ []) = refl
ntohl-load32 (a ∷ b ∷ c ∷ d ∷ rest) = omega arith

pub be32_value-append : (xs ys : Bytes) → 4 ≤ length xs → be32_value (xs ++ ys) ≡ be32_value xs
be32_value-append [] ys h = absurd (omega arith)
be32_value-append (a ∷ []) ys h = absurd (omega arith)
be32_value-append (a ∷ b ∷ []) ys h = absurd (omega arith)
be32_value-append (a ∷ b ∷ c ∷ []) ys h = absurd (omega arith)
be32_value-append (a ∷ b ∷ c ∷ d ∷ xs) ys h = refl

pub be32_value-take : (xs : Bytes) → be32_value (take 4 xs) ≡ be32_value xs
be32_value-take [] = refl
be32_value-take (a ∷ []) = refl
be32_value-take (a ∷ b ∷ []) = refl
be32_value-take (a ∷ b ∷ c ∷ []) = refl
be32_value-take (a ∷ b ∷ c ∷ d ∷ rest) = refl
