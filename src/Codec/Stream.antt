-- ===== src/Codec/Stream.antt =====
-- What the codec promises, with no buffer in sight: a byte stream is read as messages and a rest.
use native.Mathlib.Decide.{dec_lt}
use learnuv.Base.{
  ◌+◌, ◌≤◌, ◌<◌, ◌≡◌, refl, sym, subst, ◌⊎◌, inl, inr, List, [], ◌∷◌, ◌++◌, arith, Bytes, length,
  take, drop, length-append, length-drop, take-append, drop-append, take-append_length,
  drop-append_length, append_assoc, ◌∙◌, append-nil,
}
use learnuv.Base.Word.{be32_value, be32_value-append, be32, be32_value-be32}

-- A whole message stands at the front, and at least one byte beside the header.
pub record IsFrame (s : Bytes) : Type 0 where
  pub more : 4 < length s
  pub short : be32_value s ≤ 4096
  pub whole : be32_value s + 4 ≤ length s

-- Nothing can be read: there is no more than a header, or its length is refused, or bytes are
-- missing.
abbrev pub IsPending : Bytes → Type 0
IsPending s = (length s ≤ 4) ⊎ ((4096 < be32_value s) ⊎ (length s < be32_value s + 4))

pub IsPending-or-IsFrame : (s : Bytes) → IsPending s ⊎ IsFrame s
IsPending-or-IsFrame s = elim (dec_lt 4 (length s)) [
  | no few ↦ inl (inl (omega arith))
  | yes more ↦ elim (dec_lt 4096 (be32_value s)) [
    | yes long ↦ inl (inr (inl long))
    | no short ↦ elim (dec_lt (length s) (be32_value s + 4)) [
      | yes part ↦ inl (inr (inr part))
      | no whole ↦ inr (record { more = more; short = omega arith; whole = omega arith })
    ]
  ]
]

pub IsPending-not-IsFrame : {s : Bytes} → IsPending s → IsFrame s → ⊥
IsPending-not-IsFrame p f = omega arith

abbrev pub message : Bytes → Bytes
message s = take (be32_value s) (drop 4 s)

abbrev pub behind : Bytes → Bytes
behind s = drop (be32_value s) (drop 4 s)

-- The stream `s` is read as the messages `ms`, and `rest` stays.
pub data Decodes : Bytes → List Bytes → Bytes → Type 0 where
  pending : {s : Bytes} → IsPending s → Decodes s [] s
  frame :
      {s rest : Bytes} {ms : List Bytes}
      → IsFrame s
      → Decodes (behind s) ms rest
      → Decodes s (message s ∷ ms) rest

-- At variable indices: the first message, or none.
pub Reads : Bytes → List Bytes → Bytes → Type 0
Reads s [] rest = IsPending s × (rest ≡ s)
Reads s (m ∷ ms) rest = IsFrame s × (m ≡ message s) × Decodes (behind s) ms rest

Decodes-Reads : {s : Bytes} {ms : List Bytes} {rest : Bytes} → Decodes s ms rest → Reads s ms rest
unfolding Reads
Decodes-Reads (pending p) = (p, refl)
Decodes-Reads (frame f d) = (f, refl, d)

Reads-unique :
    {s : Bytes} {ms : List Bytes} {rest : Bytes}
    → Decodes s ms rest
    → (ms' : List Bytes) (rest' : Bytes) → Reads s ms' rest'
    → (ms ≡ ms') × (rest ≡ rest')
unfolding Reads
Reads-unique (pending p) [] rest' e = (refl, sym e.1)
Reads-unique (pending p) (m ∷ ms') rest' e = absurd (IsPending-not-IsFrame p e.0)
Reads-unique (frame f d) [] rest' e = absurd (IsPending-not-IsFrame e.0 f)
Reads-unique (frame f d) (m ∷ ms') rest' e =
    ground (arith, Reads-unique d ms' rest' (Decodes-Reads e.2))

-- A stream is read in one way only.
pub Decodes-unique :
    {s : Bytes} {ms ms' : List Bytes} {rest rest' : Bytes}
    → Decodes s ms rest
    → Decodes s ms' rest'
    → (ms ≡ ms') × (rest ≡ rest')
Decodes-unique d e = Reads-unique d _ _ (Decodes-Reads e)

module _ (s t : Bytes) (f : IsFrame s) where
  pub IsFrame-append : IsFrame (s ++ t)
  IsFrame-append = record {
    more = omega (arith, length-append s t);
    short = rw (be32_value-append s t (omega arith)) f.short;
    whole = rw (be32_value-append s t (omega arith)) (omega (arith, length-append s t));
  }

  pub message-append : message (s ++ t) ≡ message s
  message-append =
      rw (be32_value-append s t (omega arith), drop-append 4 s t (omega arith))
        (take-append (be32_value s) (drop 4 s) t (omega (arith, length-drop 4 s)))

  pub behind-append : behind (s ++ t) ≡ behind s ++ t
  behind-append =
      rw (be32_value-append s t (omega arith), drop-append 4 s t (omega arith))
        (drop-append (be32_value s) (drop 4 s) t (omega (arith, length-drop 4 s)))

-- What arrives later is read as if it had been there: reading `s` first, and then what is left of
-- it with `t` behind, gives the messages of `s ++ t`.
pub Decodes-append :
    {s : Bytes} {ms : List Bytes} {rest : Bytes} (t : Bytes) (ms' : List Bytes) (rest' : Bytes)
    → Decodes s ms rest
    → Decodes (rest ++ t) ms' rest'
    → Decodes (s ++ t) (ms ++ ms') rest'
Decodes-append t ms' rest' (pending p) e = e
Decodes-append t ms' rest' (frame {s = s} {ms = ms} f d) e =
    subst (λ m. Decodes (s ++ t) (m ∷ (ms ++ ms')) rest') (message-append s t f)
      (frame (IsFrame-append s t f) (
        subst (λ b. Decodes b (ms ++ ms') rest') (sym (behind-append s t f))
          (Decodes-append t ms' rest' d e)))

-- What stays cannot be read.
pub Decodes-IsPending :
    {s : Bytes} {ms : List Bytes} {rest : Bytes} → Decodes s ms rest → IsPending rest
Decodes-IsPending (pending p) = p
Decodes-IsPending (frame f d) = Decodes-IsPending d

-- A message as the sender frames it, and several in a row.
abbrev pub framed : Bytes → Bytes
framed m = be32 (length m) ++ m

abbrev pub frames : List Bytes → Bytes
frames [] = []
frames (m ∷ ms) = framed m ++ frames ms

-- No message is longer than the limit, and an empty one has something behind it: another frame, or
-- a byte of the unfinished rest `t`.
abbrev pub IsDeliverable : List Bytes → Bytes → Type 0
IsDeliverable [] t = Unit {0}
IsDeliverable (m ∷ ms) t =
    (length m ≤ 4096) × (0 < length m + length (frames ms ++ t)) × IsDeliverable ms t

module _ (m t : Bytes) (short : length m ≤ 4096) where
  value_framed : be32_value (framed m ++ t) ≡ length m
  value_framed = be32_value-be32 (length m) (m ++ t) (omega arith)

  pub framed-IsFrame : 0 < length m + length t → IsFrame (framed m ++ t)
  framed-IsFrame h = record {
    more = omega (arith, length-append m t);
    short = rw value_framed short;
    whole = rw value_framed (omega (arith, length-append m t));
  }

  pub message-framed : message (framed m ++ t) ≡ m
  message-framed = rw value_framed (take-append_length m t)

  pub behind-framed : behind (framed m ++ t) ≡ t
  behind-framed = rw value_framed (drop-append_length m t)

-- The frames of deliverable messages are read as those messages, and a rest that cannot be read
-- stays.
pub frames-Decodes :
    (ms : List Bytes) (t : Bytes) → IsDeliverable ms t → IsPending t → Decodes (frames ms ++ t) ms t
frames-Decodes [] t h p = pending p
frames-Decodes (m ∷ ms) t (short, more, h) p = rw (append_assoc (framed m) (frames ms) t) (
    subst (λ x. Decodes (framed m ++ (frames ms ++ t)) (x ∷ ms) t)
      (message-framed m (frames ms ++ t) short)
      (frame (framed-IsFrame m (frames ms ++ t) short more) (
        subst (λ b. Decodes b ms t) (sym (behind-framed m (frames ms ++ t) short))
          (frames-Decodes ms t h p))))

pub framed-Decodes : (m : Bytes) → 0 < length m → length m ≤ 4096 → Decodes (framed m) (m ∷ []) []
framed-Decodes m some_text short =
    subst (λ x. Decodes x (m ∷ []) []) (append-nil (framed m ++ []) ∙ append-nil (framed m))
      (frames-Decodes (m ∷ []) [] (short, omega arith, tt) (inl (omega arith)))
