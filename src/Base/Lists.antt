-- ===== src/Base/Lists.antt =====
-- Byte sequences, measured and indexed by native numbers, under the library's names.
use Prim.Native.Nat.{ℕ, zero, suc, ◌+◌, ◌-◌, ◌≤◌, min}
use Prim.Native.Char.{code}
use Prim.Native.String.{String}
use mathlib.Core.Path.{◌≡◌, refl, ap, sym, ◌∙◌}
use mathlib.Core.List.{List, [], ◌∷◌, ◌++◌, append_assoc}
use native.Mathlib.Omega.{arith}

-- A byte is a number below 256 wherever its value matters.
abbrev pub Bytes : Type 0
Bytes = List ℕ

-- The bytes of an ASCII literal.
abbrev pub codes : String → Bytes
codes String.[] = []
codes (String.◌∷◌ c s) = code c ∷ codes s

module _ {ℓ} {A : Type ℓ} where
  abbrev pub length : List A → ℕ
  length [] = 0
  length (x ∷ xs) = suc (length xs)

  abbrev pub take : ℕ → List A → List A
  take zero xs = []
  take (suc n) [] = []
  take (suc n) (x ∷ xs) = x ∷ take n xs

  abbrev pub drop : ℕ → List A → List A
  drop zero xs = xs
  drop (suc n) [] = []
  drop (suc n) (x ∷ xs) = drop n xs

  abbrev pub replicate : ℕ → A → List A
  replicate zero a = []
  replicate (suc n) a = a ∷ replicate n a

  -- A copy into `xs` from index `i` on. What would fall behind the end is dropped.
  abbrev pub overwrite : ℕ → List A → List A → List A
  overwrite (suc i) ds [] = []
  overwrite (suc i) ds (x ∷ xs) = x ∷ overwrite i ds xs
  overwrite zero [] xs = xs
  overwrite zero (d ∷ ds) [] = []
  overwrite zero (d ∷ ds) (x ∷ xs) = d ∷ overwrite zero ds xs

  abbrev pub concat : List (List A) → List A
  concat [] = []
  concat (xs ∷ xss) = xs ++ concat xss

module _ {ℓ κ} {A : Type ℓ} (P : A → Type κ) where
  abbrev pub All : List A → Type κ
  All [] = Unit
  All (x ∷ xs) = P x × All xs

  pub All-append : (xs ys : List A) → All xs → All ys → All (xs ++ ys)
  All-append [] ys hx hy = hy
  All-append (x ∷ xs) ys hx hy = (hx.0, All-append xs ys hx.1 hy)

  pub All-drop : (n : ℕ) (xs : List A) → All xs → All (drop n xs)
  All-drop zero xs h = h
  All-drop (suc n) [] h = h
  All-drop (suc n) (x ∷ xs) h = All-drop n xs h.1

module _ {ℓ} {A : Type ℓ} where
  pub length-append : (xs ys : List A) → length (xs ++ ys) ≡ length xs + length ys
  length-append [] ys = omega arith
  length-append (x ∷ xs) ys = omega (arith, length-append xs ys)

  pub length-take : (n : ℕ) (xs : List A) → length (take n xs) ≡ min n (length xs)
  length-take zero xs = omega arith
  length-take (suc n) [] = omega arith
  length-take (suc n) (x ∷ xs) = omega (arith, length-take n xs)

  pub length-drop : (n : ℕ) (xs : List A) → length (drop n xs) ≡ length xs - n
  length-drop zero xs = omega arith
  length-drop (suc n) [] = omega arith
  length-drop (suc n) (x ∷ xs) = omega (arith, length-drop n xs)

  pub length-replicate : (n : ℕ) (a : A) → length (replicate n a) ≡ n
  length-replicate zero a = refl
  length-replicate (suc n) a = ap suc (length-replicate n a)

  pub length-overwrite : (i : ℕ) (ds xs : List A) → length (overwrite i ds xs) ≡ length xs
  length-overwrite (suc i) ds [] = refl
  length-overwrite (suc i) ds (x ∷ xs) = ap suc (length-overwrite i ds xs)
  length-overwrite zero [] xs = refl
  length-overwrite zero (d ∷ ds) [] = refl
  length-overwrite zero (d ∷ ds) (x ∷ xs) = ap suc (length-overwrite zero ds xs)

  pub take_all : (n : ℕ) (xs : List A) → length xs ≤ n → take n xs ≡ xs
  take_all zero [] h = refl
  take_all zero (x ∷ xs) h = absurd (omega arith)
  take_all (suc n) [] h = refl
  take_all (suc n) (x ∷ xs) h = ap (◌∷◌ x) (take_all n xs (omega arith))

  pub drop_all : (n : ℕ) (xs : List A) → length xs ≤ n → drop n xs ≡ []
  drop_all zero [] h = refl
  drop_all zero (x ∷ xs) h = absurd (omega arith)
  drop_all (suc n) [] h = refl
  drop_all (suc n) (x ∷ xs) h = drop_all n xs (omega arith)

  pub take-append : (n : ℕ) (xs ys : List A) → n ≤ length xs → take n (xs ++ ys) ≡ take n xs
  take-append zero xs ys h = refl
  take-append (suc n) [] ys h = absurd (omega arith)
  take-append (suc n) (x ∷ xs) ys h = ap (◌∷◌ x) (take-append n xs ys (omega arith))

  pub drop-append : (n : ℕ) (xs ys : List A) → n ≤ length xs → drop n (xs ++ ys) ≡ drop n xs ++ ys
  drop-append zero xs ys h = refl
  drop-append (suc n) [] ys h = absurd (omega arith)
  drop-append (suc n) (x ∷ xs) ys h = drop-append n xs ys (omega arith)

  pub take-append_length : (xs ys : List A) → take (length xs) (xs ++ ys) ≡ xs
  take-append_length [] ys = refl
  take-append_length (x ∷ xs) ys = ap (◌∷◌ x) (take-append_length xs ys)

  pub drop-append_length : (xs ys : List A) → drop (length xs) (xs ++ ys) ≡ ys
  drop-append_length [] ys = refl
  drop-append_length (x ∷ xs) ys = drop-append_length xs ys

  pub take-append-drop : (n : ℕ) (xs : List A) → take n xs ++ drop n xs ≡ xs
  take-append-drop zero xs = refl
  take-append-drop (suc n) [] = refl
  take-append-drop (suc n) (x ∷ xs) = ap (◌∷◌ x) (take-append-drop n xs)

  pub drop-drop : (m n k : ℕ) (xs : List A) → m + n ≡ k → drop n (drop m xs) ≡ drop k xs
  drop-drop zero n k xs e = let e' : n ≡ k = omega arith in ap (λ j. drop j xs) e'
  drop-drop (suc m) zero k [] e = drop-nil k
    where
      drop-nil : (k : ℕ) → [] ≡ drop {A = A} k []
      drop-nil zero = refl
      drop-nil (suc k) = refl
  drop-drop (suc m) (suc n) k [] e = drop-nil k
    where
      drop-nil : (k : ℕ) → [] ≡ drop {A = A} k []
      drop-nil zero = refl
      drop-nil (suc k) = refl
  drop-drop (suc m) n zero (x ∷ xs) e = absurd (omega arith)
  drop-drop (suc m) n (suc k) (x ∷ xs) e = drop-drop m n k xs (omega arith)

  -- A copy that fits extends what stands in front of it.
  pub take-overwrite :
      (i n : ℕ) (ds xs : List A)
      → i + length ds ≤ length xs
      → i + length ds ≡ n
      → take n (overwrite i ds xs) ≡ take i xs ++ ds
  take-overwrite (suc i) n ds [] h e = absurd (omega arith)
  take-overwrite (suc i) zero ds (x ∷ xs) h e = absurd (omega arith)
  take-overwrite (suc i) (suc n) ds (x ∷ xs) h e =
      ap (◌∷◌ x) (take-overwrite i n ds xs (omega arith) (omega arith))
  take-overwrite zero zero [] xs h e = refl
  take-overwrite zero (suc n) [] xs h e = absurd (omega arith)
  take-overwrite zero n (d ∷ ds) [] h e = absurd (omega arith)
  take-overwrite zero zero (d ∷ ds) (x ∷ xs) h e = absurd (omega arith)
  take-overwrite zero (suc n) (d ∷ ds) (x ∷ xs) h e =
      ap (◌∷◌ d) (take-overwrite zero n ds xs (omega arith) (omega arith))

  pub concat-append : (xss yss : List (List A)) → concat (xss ++ yss) ≡ concat xss ++ concat yss
  concat-append [] yss = refl
  concat-append (xs ∷ xss) yss =
      ap (λ zs. xs ++ zs) (concat-append xss yss) ∙ sym (append_assoc xs (concat xss) (concat yss))

  pub append_cancel :
      (xs ys : List A) {us vs : List A}
      → length xs ≡ length ys
      → xs ++ us ≡ ys ++ vs
      → (xs ≡ ys) × (us ≡ vs)
  append_cancel xs ys {us} {vs} h e = (
    sym (take-append_length xs us)
        ∙ ap (take (length xs)) e
        ∙ ap (λ n. take n (ys ++ vs)) h
        ∙ take-append_length ys vs,
    sym (drop-append_length xs us)
        ∙ ap (drop (length xs)) e
        ∙ ap (λ n. drop n (ys ++ vs)) h
        ∙ drop-append_length ys vs,
  )

  pub take-take : (k n : ℕ) (xs : List A) → k ≤ n → take k (take n xs) ≡ take k xs
  take-take zero n xs h = refl
  take-take (suc k) zero xs h = absurd (omega arith)
  take-take (suc k) (suc n) [] h = refl
  take-take (suc k) (suc n) (x ∷ xs) h = ap (◌∷◌ x) (take-take k n xs (omega arith))

  pub take-drop-take :
      (i k n : ℕ) (xs : List A) → i + k ≤ n → take k (drop i (take n xs)) ≡ take k (drop i xs)
  take-drop-take zero k n xs h = take-take k n xs (omega arith)
  take-drop-take (suc i) k zero xs h = absurd (omega arith)
  take-drop-take (suc i) k (suc n) [] h = refl
  take-drop-take (suc i) k (suc n) (x ∷ xs) h = take-drop-take i k n xs (omega arith)

  -- A window of `xs` up to `n` begins with its next `k` elements.
  pub window_split :
      (i k n : ℕ) (xs : List A)
      → i + k ≤ n
      → drop i (take n xs) ≡ take k (drop i xs) ++ drop (i + k) (take n xs)
  window_split i k n xs h =
      sym (take-append-drop k (drop i (take n xs)))
      ∙ ap (λ ys. ys ++ drop k (drop i (take n xs))) (take-drop-take i k n xs h)
      ∙ ap (λ ys. take k (drop i xs) ++ ys) (drop-drop i k (i + k) (take n xs) refl)
