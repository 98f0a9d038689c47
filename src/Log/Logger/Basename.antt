-- ===== src/Log/Logger/Basename.antt =====
-- The file name of a log line is the part behind the last slash.
use learnuv.Base.{
  ℕ, zero, suc, ◌-◌, ◌<◌, ◌≡◌, ◌≢◌, ◌⊎◌, none, some, [], ◌∷◌, ◌++◌, arith, Bytes, length, take,
  drop, All, refl, ap, inl, inr, length-drop, take_all, take-append-drop, Option-cases, sym, subst,
  ◌∙◌, ◌^◌, true, ◌%◌, ◌+◌,
}
use learnuv.Base.Int.{pos, ltb_ℤ, signed32}
use learnuv.Codec.Stream.{behind}
use learnuv.Log.Logger.{last_slash, source_file, file_text, SourceFile, named_source_file}

abbrev pub Lacks : ℕ → Bytes → Type 0
Lacks b = All (λ c. c ≢ b)

-- What `strrchr` finds.
last_slash-none : (xs : Bytes) → last_slash xs ≡ none → Lacks b'/' xs
unfolding last_slash
last_slash-none [] e = tt
last_slash-none (c ∷ cs) e = ground (arith, last_slash-none cs)

last_slash_zero :
    (c : ℕ) (cs : Bytes) → last_slash (c ∷ cs) ≡ some 0 → (last_slash cs ≡ none) × (c ≡ b'/')
unfolding last_slash
last_slash_zero c cs e = ground arith

last_slash-suc :
    (c : ℕ) (cs : Bytes) (k : ℕ) → last_slash (c ∷ cs) ≡ some (suc k) → last_slash cs ≡ some k
unfolding last_slash
last_slash-suc c cs k e = ground arith

last_slash-some :
    (xs : Bytes) (k : ℕ)
    → last_slash xs ≡ some k
    → (k < length xs) × (take (suc k) xs ≡ take k xs ++ b'/' ∷ []) × Lacks b'/' (drop (suc k) xs)
last_slash-some [] k e = unfold last_slash in absurd (ground arith)
last_slash-some (c ∷ cs) zero e =
    let (behind, here) = last_slash_zero c cs e in
    (omega arith, ap (λ x. x ∷ []) here, last_slash-none cs behind)
last_slash-some (c ∷ cs) (suc k) e =
    let (inside, found, behind) = last_slash-some cs k (last_slash-suc c cs k e) in
    (omega arith, ap (◌∷◌ c) found, behind)

-- The text of `f` holds no slash, and it is what follows the last slash of the path `arr`, or the
-- whole path if that has none.
pub record IsBasename (arr : Bytes) (f : SourceFile) : Type 0 where
  pub no_slash : Lacks b'/' (file_text f)
  pub suffix : take f.data_index arr ++ file_text f ≡ arr
  pub at_slash :
      (f.data_index ≡ 0)
      ⊎ ((k : ℕ) × (f.data_index ≡ suc k) × (take (suc k) arr ≡ take k arr ++ b'/' ∷ []))

source_file-none :
    (arr : Bytes)
    → last_slash arr ≡ none
    → source_file arr ≡ record { arr = arr; data_index = 0; size = length arr }
unfolding source_file
source_file-none arr e = rw (e, source_file)

source_file-some :
    (arr : Bytes) (k : ℕ)
    → last_slash arr ≡ some k
    → source_file arr ≡ record { arr = arr; data_index = suc k; size = length arr - suc k }
unfolding source_file
source_file-some arr k e = ground arith

whole-IsBasename :
    (arr : Bytes)
    → Lacks b'/' arr
    → IsBasename arr (record { arr = arr; data_index = 0; size = length arr })
unfolding file_text
whole-IsBasename arr h = record {
  no_slash = rw (take_all (length arr) arr (omega arith)) h;
  suffix = take_all (length arr) arr (omega arith);
  at_slash = inl refl;
}

rest-IsBasename :
    (arr : Bytes) (k : ℕ)
    → take (suc k) arr ≡ take k arr ++ b'/' ∷ []
    → Lacks b'/' (drop (suc k) arr)
    → IsBasename arr (record { arr = arr; data_index = suc k; size = length arr - suc k })
unfolding file_text
rest-IsBasename arr k found behind = record {
  no_slash = subst (Lacks b'/') (sym all) behind;
  suffix = ap (λ xs. take (suc k) arr ++ xs) all ∙ take-append-drop (suc k) arr;
  at_slash = inr (k, refl, found);
}
  where
    all : take (length arr - suc k) (drop (suc k) arr) ≡ drop (suc k) arr
    all = take_all (length arr - suc k) (drop (suc k) arr) (omega (arith, length-drop (suc k) arr))

-- The text that is logged for a file holds no slash, and it is what follows the last slash of the
-- path, or the whole path if that has none.
pub source_file-IsBasename : (arr : Bytes) → IsBasename arr (source_file arr)
source_file-IsBasename arr = elim (Option-cases (last_slash arr)) [
  | inl e ↦ rw (source_file-none arr e) (whole-IsBasename arr (last_slash-none arr e))
  | inr (k, e) ↦
      let (_, found, behind) = last_slash-some arr k e in
      rw (source_file-some arr k e) (rest-IsBasename arr k found behind)
]

negative_size :
    (n : ℕ) → 0 < n → n < 2 ^ 31 → ltb_ℤ (signed32 ((2 ^ 32 - n) % 2 ^ 32)) (pos 0) ≡ true
negative_size n h k = ground arith

named_source_file-none :
    (held : ℕ) (filename : Bytes)
    → last_slash filename ≡ none
    → named_source_file held filename
      ≡ (filename, signed32 ((held + 2 ^ 32 - length filename) % 2 ^ 32))
unfolding named_source_file
named_source_file-none held filename e = rw e refl

named_source_file-some :
    (held : ℕ) (filename : Bytes) (k : ℕ)
    → last_slash filename ≡ some k
    → named_source_file held filename ≡ (
      drop (suc k) filename,
      signed32 ((held + 2 ^ 32 - length (drop (suc k) filename)) % 2 ^ 32),
    )
unfolding named_source_file
named_source_file-some held filename k e = let up : k + 1 ≡ suc k = omega arith in rw (e, up) refl

-- The other constructor finds the same text. But if `size_` held 0, a name that is not empty gets a
-- negative size, and no text of the file would be logged.
named_source_file_lem :
    (held : ℕ) (filename : Bytes)
    → length filename < 2 ^ 31
    → ((named_source_file held filename).0 ≡ file_text (source_file filename))
      × (0 < length (named_source_file 0 filename).0
          → ltb_ℤ (named_source_file 0 filename).1 (pos 0) ≡ true)
unfolding file_text
named_source_file_lem held filename h = elim (Option-cases (last_slash filename)) [
  | inl e ↦
      rw
        (
          named_source_file-none held filename e,
          named_source_file-none 0 filename e,
          source_file-none filename e,
        )
        (
          sym (take_all (length filename) filename (omega arith)),
          λ some_text. negative_size (length filename) some_text h,
        )
  | inr (k, e) ↦
      rw
        (
          named_source_file-some held filename k e,
          named_source_file-some 0 filename k e,
          source_file-some filename k e,
        )
        (
          sym (
              take_all (length filename - suc k) (drop (suc k) filename)
                (omega (arith, length-drop (suc k) filename))),
          λ some_text.
              negative_size (length (drop (suc k) filename)) some_text
                (omega (arith, length-drop (suc k) filename)),
        )
]
