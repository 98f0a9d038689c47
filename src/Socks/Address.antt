-- ===== src/Socks/Address.antt =====
-- `Addr`, `readPort` and `parseAddr`: the address in a SOCKS4 request.
use learnuv.Base.{
  ℕ, zero, suc, ◌+◌, ◌*◌, ◌%◌, ◌^◌, ◌≤◌, ◌<◌, ◌≡◌, refl, sym, ap, ap₂, ◌∙◌, [], ◌∷◌, ◌++◌, arith,
  Bytes, length, drop, All, length-append, ltb, out_of_range, Outcome, ok, ◌>>◌, require, fail,
}
use learnuv.Base.Word.{IsByte}
use learnuv.Base.Decimal.{
  decimal, value, IsDigit, value-decimal_fuel, decimal_fuel-All, length-decimal_fuel,
}

-- The unsigned value of a `char` in memory; a zero where the memory ends, which no caller reaches.
abbrev pub byte_at : Bytes → ℕ → ℕ
byte_at [] i = 0
byte_at (b ∷ mem) zero = b % 256
byte_at (b ∷ mem) (suc i) = byte_at mem i

-- `Addr`, with the text in front of the zero byte of `char ip[16]`
pub record Addr : Type 0 where
  pub ip : Bytes
  pub port : ℕ

pub read_port : Bytes → ℕ → ℕ
read_port buf offset = byte_at buf offset * 2 ^ 8 + byte_at buf (1 + offset)

-- "%d.%d.%d.%d"
pub dotted : ℕ → ℕ → ℕ → ℕ → Bytes
dotted a b c d = decimal a ++ (b'.' ∷ (decimal b ++ (b'.' ∷ (decimal c ++ (b'.' ∷ decimal d)))))

-- `parseAddr`; `sprintf` must leave room for the zero byte.
pub parse_addr : Bytes → ℕ → Outcome Addr
unfolding read_port dotted
parse_addr buf offset = do
  let text =
      dotted (byte_at buf (2 + offset)) (byte_at buf (3 + offset)) (byte_at buf (4 + offset))
        (byte_at buf (5 + offset))
  require (ltb (length text) 16) out_of_range
  ok (record { ip = text; port = read_port buf offset })

decimal-short : (n : ℕ) → n < 256 → length (decimal n) ≤ 3
decimal-short n h = (length-decimal_fuel 20 2 n (omega arith) (omega arith)).1

length-dotted : (a b c d : ℕ) → a < 256 → b < 256 → c < 256 → d < 256 → length (dotted a b c d) < 16
unfolding dotted
length-dotted a b c d ha hb hc hd = omega (
  arith,
  length-append (decimal a) (b'.' ∷ (decimal b ++ (b'.' ∷ (decimal c ++ (b'.' ∷ decimal d))))),
  length-append (decimal b) (b'.' ∷ (decimal c ++ (b'.' ∷ decimal d))),
  length-append (decimal c) (b'.' ∷ decimal d),
  decimal-short a ha,
  decimal-short b hb,
  decimal-short c hc,
  decimal-short d hd,
)

abbrev first : Bytes → ℕ
first [] = 0
first (x ∷ xs) = x

first_eq : {x y : ℕ} {xs ys : Bytes} → x ∷ xs ≡ y ∷ ys → x ≡ y
first_eq e = ap first e

-- Two texts that go on with a point behind digits agree in front of the point and behind it.
split-point :
    (xs ys us vs : Bytes)
    → All IsDigit xs
    → All IsDigit ys
    → xs ++ b'.' ∷ us ≡ ys ++ b'.' ∷ vs
    → (xs ≡ ys) × (us ≡ vs)
split-point [] [] us vs hx hy e = (refl, ap (drop 1) e)
split-point [] (y ∷ ys) us vs hx hy e = absurd (omega (arith, first_eq e, hy.0))
split-point (x ∷ xs) [] us vs hx hy e = absurd (omega (arith, first_eq e, hx.0))
split-point (x ∷ xs) (y ∷ ys) us vs hx hy e =
    let (xs_ys, us_vs) = split-point xs ys us vs hx.1 hy.1 (ap (drop 1) e) in
    (ap₂ ◌∷◌ (first_eq e) xs_ys, us_vs)

decimal-injective : (m n : ℕ) → m < 256 → n < 256 → decimal m ≡ decimal n → m ≡ n
decimal-injective m n hm hn e =
    sym (value-decimal_fuel 20 m (omega arith)) ∙ ap value e ∙ value-decimal_fuel 20 n (omega arith)

dotted-injective :
    (a b c d a' b' c' d' : ℕ)
    → (a < 256) × (b < 256) × (c < 256) × (d < 256)
    → (a' < 256) × (b' < 256) × (c' < 256) × (d' < 256)
    → dotted a b c d ≡ dotted a' b' c' d'
    → (a ≡ a') × (b ≡ b') × (c ≡ c') × (d ≡ d')
unfolding dotted
dotted-injective a b c d a' b' c' d' (ha, hb, hc, hd) (ha', hb', hc', hd') e =
    let (e₁, r₁) =
      split-point (decimal a) (decimal a') _ _ (decimal_fuel-All 20 a) (decimal_fuel-All 20 a') e in
    let (e₂, r₂) =
      split-point (decimal b) (decimal b') _ _ (decimal_fuel-All 20 b) (decimal_fuel-All 20 b')
        r₁ in
    let (e₃, e₄) =
      split-point (decimal c) (decimal c') _ _ (decimal_fuel-All 20 c) (decimal_fuel-All 20 c')
        r₂ in
    (
      decimal-injective a a' ha ha' e₁,
      decimal-injective b b' hb hb' e₂,
      decimal-injective c c' hc hc' e₃,
      decimal-injective d d' hd hd' e₄,
    )

byte_at-lt : (mem : Bytes) (i : ℕ) → byte_at mem i < 256
byte_at-lt [] i = omega arith
byte_at-lt (b ∷ mem) zero = omega arith
byte_at-lt (b ∷ mem) (suc i) = byte_at-lt mem i

-- What `parse_addr` fills in.
abbrev pub addr_of : Bytes → ℕ → Addr
addr_of buf offset = record {
  ip =
      dotted (byte_at buf (2 + offset)) (byte_at buf (3 + offset)) (byte_at buf (4 + offset))
        (byte_at buf (5 + offset));
  port = read_port buf offset;
}

fits : (buf : Bytes) (offset : ℕ) → length (addr_of buf offset).ip < 16
fits buf offset =
    length-dotted (byte_at buf (2 + offset)) (byte_at buf (3 + offset)) (byte_at buf (4 + offset))
      (byte_at buf (5 + offset)) (byte_at-lt buf (2 + offset)) (byte_at-lt buf (3 + offset))
      (byte_at-lt buf (4 + offset)) (byte_at-lt buf (5 + offset))

pub parse_addr-addr_of :
    (buf : Bytes) (offset : ℕ) → parse_addr buf offset ≡ ok (addr_of buf offset)
unfolding parse_addr
parse_addr-addr_of buf offset = ground (arith, fits buf offset)

read_port-lt : (buf : Bytes) (offset : ℕ) → read_port buf offset < 2 ^ 16
unfolding read_port
read_port-lt buf offset = omega (arith, byte_at-lt buf offset, byte_at-lt buf (1 + offset))

read_port-injective :
    (buf buf' : Bytes) (offset : ℕ)
    → read_port buf offset ≡ read_port buf' offset
    → (byte_at buf offset ≡ byte_at buf' offset)
      × (byte_at buf (1 + offset) ≡ byte_at buf' (1 + offset))
unfolding read_port
read_port-injective buf buf' offset e = omega (
  arith,
  byte_at-lt buf offset,
  byte_at-lt buf (1 + offset),
  byte_at-lt buf' offset,
  byte_at-lt buf' (1 + offset),
)

dotted_eq :
    (buf buf' : Bytes) (offset : ℕ)
    → (addr_of buf offset).ip ≡ (addr_of buf' offset).ip
    → (byte_at buf (2 + offset) ≡ byte_at buf' (2 + offset))
      × (byte_at buf (3 + offset) ≡ byte_at buf' (3 + offset))
      × (byte_at buf (4 + offset) ≡ byte_at buf' (4 + offset))
      × (byte_at buf (5 + offset) ≡ byte_at buf' (5 + offset))
dotted_eq buf buf' offset = dotted-injective _ _ _ _ _ _ _ _ (quad buf) (quad buf')
  where
    quad :
        (mem : Bytes)
        → (byte_at mem (2 + offset) < 256)
          × (byte_at mem (3 + offset) < 256)
          × (byte_at mem (4 + offset) < 256)
          × (byte_at mem (5 + offset) < 256)
    quad mem = (byte_at-lt mem _, byte_at-lt mem _, byte_at-lt mem _, byte_at-lt mem _)

six : (P : ℕ → Type 0) → P 0 → P 1 → P 2 → P 3 → P 4 → P 5 → (i : ℕ) → i < 6 → P i
six P p₀ p₁ p₂ p₃ p₄ p₅ zero h = p₀
six P p₀ p₁ p₂ p₃ p₄ p₅ (suc zero) h = p₁
six P p₀ p₁ p₂ p₃ p₄ p₅ (suc (suc zero)) h = p₂
six P p₀ p₁ p₂ p₃ p₄ p₅ (suc (suc (suc zero))) h = p₃
six P p₀ p₁ p₂ p₃ p₄ p₅ (suc (suc (suc (suc zero)))) h = p₄
six P p₀ p₁ p₂ p₃ p₄ p₅ (suc (suc (suc (suc (suc zero))))) h = p₅
six P p₀ p₁ p₂ p₃ p₄ p₅ (suc (suc (suc (suc (suc (suc i)))))) h = absurd (omega arith)

abbrev value_of : Outcome Addr → Addr
value_of (ok a) = a
value_of (fail why) = record { ip = []; port = 0 }

-- The address that a request names always fits the 16 bytes of `ip`, the port is below 65536, and
-- two requests that give the same address agree in all of their six address bytes.
pub parse_addr_lem :
    (buf buf' : Bytes) (offset : ℕ)
    → (a : Addr) × (parse_addr buf offset ≡ ok a)
      × (length a.ip < 16)
      × (a.port < 2 ^ 16)
      × (parse_addr buf' offset ≡ ok a
          → (i : ℕ) → i < 6
          → byte_at buf' (i + offset) ≡ byte_at buf (i + offset))
parse_addr_lem buf buf' offset = (
  addr_of buf offset,
  parse_addr-addr_of buf offset,
  fits buf offset,
  omega (arith, read_port-lt buf offset),
  λ e. same (sym (parse_addr-addr_of buf' offset) ∙ e),
)
  where
    at_start : 0 + offset ≡ offset
    at_start = omega arith

    same :
        ok (addr_of buf' offset) ≡ ok (addr_of buf offset)
        → (i : ℕ) → i < 6
        → byte_at buf' (i + offset) ≡ byte_at buf (i + offset)
    same e =
        let (p₀, p₁) = read_port-injective buf' buf offset (ap (λ o. (value_of o).port) e) in
        let (i₀, i₁, i₂, i₃) = dotted_eq buf' buf offset (ap (λ o. (value_of o).ip) e) in
        six (λ i. byte_at buf' (i + offset) ≡ byte_at buf (i + offset)) (rw at_start p₀) p₁ i₀ i₁ i₂
          i₃

-- The address at index 2.
pub addr_of-bytes :
    (u v hi lo a b c d : ℕ) (rest : Bytes)
    → All IsByte (hi ∷ lo ∷ a ∷ b ∷ c ∷ d ∷ [])
    → addr_of (u ∷ v ∷ hi ∷ lo ∷ a ∷ b ∷ c ∷ d ∷ rest) 2
      ≡ record { ip = dotted a b c d; port = hi * 256 + lo }
unfolding read_port
addr_of-bytes u v hi lo a b c d rest (h₁, (h₂, (h₃, (h₄, (h₅, (h₆, done)))))) =
    rw (same hi h₁, same lo h₂, same a h₃, same b h₄, same c h₅, same d h₆) refl
  where
    same : (n : ℕ) → n < 256 → n % 256 ≡ n
    same n h = omega arith
