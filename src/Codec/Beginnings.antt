-- ===== src/Codec/Beginnings.antt =====
-- What can be read of the beginning of a stream.
use learnuv.Base.{
  ℕ, zero, suc, ◌≤◌, ◌<◌, ◌≡◌, refl, subst, ◌⊎◌, inl, inr, List, [], ◌∷◌, ◌++◌, arith, Bytes,
  length, drop, length-drop,
}
use learnuv.Base.Word.{be32_value}
use learnuv.Codec.Stream.{
  IsPending-or-IsFrame, message, behind, Decodes, pending, frame, Decodes-unique, Decodes-append,
  framed, framed-Decodes,
}

Decodes-total_fuel :
    (fuel : ℕ) (s : Bytes)
    → length s ≤ fuel
    → (ms : List Bytes) × (rest : Bytes) × Decodes s ms rest
Decodes-total_fuel zero s h = ([], s, pending (inl (omega arith)))
Decodes-total_fuel (suc fuel) s h = elim (IsPending-or-IsFrame s) [
  | inl p ↦ ([], s, pending p)
  | inr f ↦
      let (ms, rest, d) =
        Decodes-total_fuel fuel (behind s)
          (omega (arith, f.more, length-drop (be32_value s) (drop 4 s), length-drop 4 s)) in
      (message s ∷ ms, rest, frame f d)
]

-- Every stream can be read.
pub Decodes-total : (s : Bytes) → (ms : List Bytes) × (rest : Bytes) × Decodes s ms rest
Decodes-total s = Decodes-total_fuel (length s) s (omega arith)

-- No message, or just this one
abbrev pub IsAtMost : Bytes → List Bytes → Type 0
IsAtMost m ms = (ms ≡ []) ⊎ (ms ≡ m ∷ [])

one-IsAtMost : (m : Bytes) (ms ms' : List Bytes) → ms ++ ms' ≡ m ∷ [] → IsAtMost m ms
one-IsAtMost m [] ms' e = inl refl
one-IsAtMost m (x ∷ []) ms' e = inr (ground arith)
one-IsAtMost m (x ∷ y ∷ ms) ms' e = absurd (ground arith)

-- From a beginning of a frame, nothing but its message can be read, and that once.
pub Decodes-IsAtMost :
    {s rest : Bytes} {ms : List Bytes} (m t : Bytes)
    → 0 < length m
    → length m ≤ 4096
    → Decodes s ms rest
    → s ++ t ≡ framed m
    → IsAtMost m ms
Decodes-IsAtMost {rest = rest} {ms = ms} m t some_text short d e =
    let (ms', rest', d') = Decodes-total (rest ++ t) in
    let whole = subst (λ x. Decodes x (ms ++ ms') rest') e (Decodes-append t ms' rest' d d') in
    one-IsAtMost m ms ms' (Decodes-unique whole (framed-Decodes m some_text short)).0
