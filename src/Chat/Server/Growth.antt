-- ===== src/Chat/Server/Growth.antt =====
-- Broadcasts while the broadcast buffer grows.
use learnuv.Base.{
  ℕ, ◌+◌, ◌≤◌, ◌≡◌, refl, sym, ap, ap₂, ◌∙◌, List, [], ◌∷◌, ◌++◌, append_assoc, arith, Bytes,
  length, take, All, length-append, take-append,
}
use learnuv.Chat.Server.Broadcast.{to_all}
use learnuv.Chat.Server.History.{broadcasts}

-- The frames of the texts are no longer than a string.
abbrev pub IsFitting : Bytes → List Bytes → Type 0
IsFitting all = All (λ text. length text + 4 ≤ length all)

pub IsFitting-append :
    (all more : Bytes) (ms : List Bytes) → IsFitting all ms → IsFitting (all ++ more) ms
IsFitting-append all more [] h = tt
IsFitting-append all more (m ∷ ms) (h, hs) =
    (omega (arith, length-append all more), IsFitting-append all more ms hs)

pub broadcasts-grow :
    (cs : List ℕ) (all more : Bytes) (ms : List Bytes)
    → IsFitting all ms
    → broadcasts cs (all ++ more) ms ≡ broadcasts cs all ms
broadcasts-grow cs all more [] h = refl
broadcasts-grow cs all more (m ∷ ms) (h, hs) =
    ap₂ (λ x ws. to_all cs x ++ ws) (take-append (length m + 4) all more h)
      (broadcasts-grow cs all more ms hs)

pub broadcasts-append :
    (cs : List ℕ) (all : Bytes) (ms ms' : List Bytes)
    → broadcasts cs all (ms ++ ms') ≡ broadcasts cs all ms ++ broadcasts cs all ms'
broadcasts-append cs all [] ms' = refl
broadcasts-append cs all (m ∷ ms) ms' =
    ap (λ ws. to_all cs (take (length m + 4) all) ++ ws) (broadcasts-append cs all ms ms')
    ∙ sym (
        append_assoc (to_all cs (take (length m + 4) all)) (broadcasts cs all ms)
          (broadcasts cs all ms'))
