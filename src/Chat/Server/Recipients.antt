-- ===== src/Chat/Server/Recipients.antt =====
-- What each connection of the chat server is sent by one broadcast.
use learnuv.Base.{
  ℕ, ◌≡◌, refl, sym, ap, subst, ◌∙◌, inl, inr, List, [], ◌∷◌, ◌++◌, append-nil, Bytes, ◌==◌,
  if◌then◌else◌, Bool-cases, ==→eq, ==-false→ne, zero, suc, ap₂, append_assoc, replicate,
}
use learnuv.Codec.Stream.{framed, frames}
use learnuv.Chat.Server.{Write}
use learnuv.Chat.Server.Broadcast.{to_all}
use learnuv.Chat.Server.Input.{Has, IsDistinct}
use learnuv.Chat.Server.History.{repeated}

-- What is written to a connection.
abbrev pub sent_to : ℕ → List Write → Bytes
sent_to d [] = []
sent_to d (w ∷ ws) = if w.conn == d then w.bytes ++ sent_to d ws else sent_to d ws

pub sent_to-absent : (d : ℕ) (cs : List ℕ) (x : Bytes) → (¬ Has d cs) → sent_to d (to_all cs x) ≡ []
unfolding to_all
sent_to-absent d [] x h = refl
sent_to-absent d (c ∷ cs) x h = elim (Bool-cases (c == d)) [
  | inl hit ↦ absurd (h (inl (sym (==→eq hit))))
  | inr miss ↦ rw miss (sent_to-absent d cs x (λ k. h (inr k)))
]

pub sent_to-to_all :
    (d : ℕ) (cs : List ℕ) (x : Bytes) → IsDistinct cs → Has d cs → sent_to d (to_all cs x) ≡ x
unfolding to_all
sent_to-to_all d [] x k h = absurd h
sent_to-to_all d (c ∷ cs) x k h = elim (Bool-cases (c == d)) [
  | inl hit ↦ rw hit (
      ap (λ ys. x ++ ys)
        (sent_to-absent d cs x (λ y. k.0 (subst (λ e. Has e cs) (sym (==→eq hit)) y)))
      ∙ append-nil x)
  | inr miss ↦
      rw miss
        (elim h [ inl e ↦ absurd (==-false→ne miss (sym e)) | inr y ↦ sent_to-to_all d cs x k.1 y ])
]

pub sent_to-append :
    (d : ℕ) (ws ws' : List Write) → sent_to d (ws ++ ws') ≡ sent_to d ws ++ sent_to d ws'
sent_to-append d [] ws' = refl
sent_to-append d (w ∷ ws) ws' = elim (Bool-cases (w.conn == d)) [
  | inl hit ↦ rw hit (
      ap (λ x. w.bytes ++ x) (sent_to-append d ws ws')
      ∙ sym (append_assoc w.bytes (sent_to d ws) (sent_to d ws')))
  | inr miss ↦ rw miss (sent_to-append d ws ws')
]

pub sent_to-repeated :
    (d : ℕ) (cs : List ℕ) (k : ℕ) (m : Bytes)
    → IsDistinct cs
    → Has d cs
    → sent_to d (repeated cs k (framed m)) ≡ frames (replicate k m)
sent_to-repeated d cs zero m h has = refl
sent_to-repeated d cs (suc k) m h has =
    sent_to-append d (to_all cs (framed m)) (repeated cs k (framed m))
    ∙ ap₂ (λ x y. x ++ y) (sent_to-to_all d cs (framed m) h has) (sent_to-repeated d cs k m h has)
