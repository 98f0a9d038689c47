-- ===== src/Chat/Server/Lifetime/Rules.antt =====
-- What the rules of the chat server's handles allow (chat/ChatServer.cpp and chat/connection.h)
use learnuv.Base.{
  ℕ, zero, suc, ◌+◌, ◌<◌, ◌≡◌, refl, sym, ap, subst, ◌∙◌, inl, inr, true, false, ◌||◌, Option, none,
  some, List, [], ◌∷◌, ◌++◌, arith, Bytes, length, take, All, ◌==◌, if◌then◌else◌, Bool-cases,
  Option-cases, ==→eq, ==-false→ne,
}
use learnuv.Buffer.{new}
use learnuv.Chat.Server.{Write, erase}
use learnuv.Chat.Server.Broadcast.{to_all}
use learnuv.Chat.Server.Input.{Has, IsDistinct, snoc-All}
use learnuv.Chat.Server.History.{broadcasts}
use learnuv.Chat.Server.Lifetime.{
  Use, writes, closes, delete_found, writings, Handles, is_in, without, allowed, replay,
  numbers_below,
}

pub replay-cons :
    (h h' : Handles) (u : Use) (us : List Use)
    → allowed u h ≡ some h'
    → replay h (u ∷ us) ≡ replay h' us
replay-cons h h' u us e = ap (λ o. elim o [ none ↦ none | some k ↦ replay k us ]) e

pub replay-append :
    (h h' : Handles) (us vs : List Use) → replay h us ≡ some h' → replay h (us ++ vs) ≡ replay h' vs
replay-append h h' [] vs e = ap (λ o. elim o [ none ↦ none | some k ↦ replay k vs ]) e
replay-append h h' (u ∷ us) vs e = elim (Option-cases (allowed u h)) [
  | inl refused ↦
      absurd (none_some (sym (ap (λ o. elim o [ none ↦ none | some k ↦ replay k us ]) refused) ∙ e))
  | inr (k, taken) ↦
      replay-cons h k u (us ++ vs) taken
      ∙ replay-append k h' us vs (sym (replay-cons h k u us taken) ∙ e)
]
  where
    none_some : ¬ (none ≡ some h')
    none_some e = ground arith

is_in-Has : (c : ℕ) (cs : List ℕ) → Has c cs → is_in c cs ≡ true
is_in-Has c [] h = absurd h
is_in-Has c (d ∷ ds) h = elim (Bool-cases (d == c)) [
  | inl hit ↦ rw hit refl
  | inr miss ↦
      rw miss (elim h [ inl e ↦ absurd (==-false→ne miss (sym e)) | inr x ↦ is_in-Has c ds x ])
]

pub is_in-above : (n : ℕ) (cs : List ℕ) → All (λ d. d < n) cs → is_in n cs ≡ false
is_in-above n [] h = refl
is_in-above n (d ∷ ds) (lt, h) = elim (Bool-cases (d == n)) [
  | inl hit ↦ absurd (omega (arith, ==→eq hit))
  | inr miss ↦ rw miss (is_in-above n ds h)
]

pub numbers_below-All : (n : ℕ) → All (λ d. d < n) (numbers_below n)
numbers_below-All zero = tt
numbers_below-All (suc n) = snoc-All n (suc n) (numbers_below n) (omega arith) (numbers_below-All n)

without-absent : (c : ℕ) (cs : List ℕ) → (¬ Has c cs) → without c cs ≡ cs
without-absent c [] h = refl
without-absent c (d ∷ ds) h = elim (Bool-cases (d == c)) [
  | inl hit ↦ absurd (h (inl (sym (==→eq hit))))
  | inr miss ↦ rw miss (ap (◌∷◌ d) (without-absent c ds (λ x. h (inr x))))
]

-- Where the connections are distinct, taking away the first one takes away all.
pub without-erase : (c : ℕ) (cs : List ℕ) → IsDistinct cs → without c cs ≡ erase c cs
unfolding erase
without-erase c [] h = refl
without-erase c (d ∷ ds) (new, h) = elim (Bool-cases (d == c)) [
  | inl hit ↦ rw hit (without-absent c ds (λ x. new (subst (λ e. Has e ds) (sym (==→eq hit)) x)))
  | inr miss ↦ rw miss (ap (◌∷◌ d) (without-erase c ds h))
]

-- Writes to connections that are open
pub AreOpen : Handles → List ℕ → Type 0
AreOpen h cs = All (λ c. is_in c h.open_ones ≡ true) cs

replay-to_all :
    (h : Handles) (cs : List ℕ) (x : Bytes)
    → AreOpen h cs
    → replay h (writings (to_all cs x)) ≡ some h
unfolding to_all AreOpen
replay-to_all h [] x live = refl
replay-to_all h (c ∷ cs) x (e, live) =
    replay-cons h h (writes c) (writings (to_all cs x)) (rw e refl) ∙ replay-to_all h cs x live

writings-append : (ws ws' : List Write) → writings (ws ++ ws') ≡ writings ws ++ writings ws'
writings-append [] ws' = refl
writings-append (w ∷ ws) ws' = ap (◌∷◌ (writes w.conn)) (writings-append ws ws')

pub replay-broadcasts :
    (h : Handles) (cs : List ℕ) (all : Bytes) (ms : List Bytes)
    → AreOpen h cs
    → replay h (writings (broadcasts cs all ms)) ≡ some h
replay-broadcasts h cs all [] live = refl
replay-broadcasts h cs all (m ∷ ms) live =
    let first = to_all cs (take (length m + 4) all) in
    ap (replay h) (writings-append first (broadcasts cs all ms))
    ∙ replay-append h h (writings first) (writings (broadcasts cs all ms))
        (replay-to_all h cs (take (length m + 4) all) live)
    ∙ replay-broadcasts h cs all ms live

pub conns-AreOpen :
    (cs ds : List ℕ)
    → ((c : ℕ) → Has c ds → Has c cs)
    → (ever : List ℕ) → AreOpen (record { open_ones = cs; ever = ever }) ds
unfolding AreOpen
conns-AreOpen cs [] h ever = tt
conns-AreOpen cs (d ∷ ds) h ever =
    (is_in-Has d cs (h d (inl refl)), conns-AreOpen cs ds (λ c x. h c (inr x)) ever)

delete_found-is_in :
    (c : ℕ) (cs : List ℕ) → delete_found c cs ≡ (if is_in c cs then closes c ∷ [] else [])
unfolding delete_found
delete_found-is_in c [] = refl
delete_found-is_in c (d ∷ ds) = elim (Bool-cases (d == c)) [
  | inl hit ↦ rw hit refl
  | inr miss ↦ rw miss (delete_found-is_in c ds)
]

erase-absent : (c : ℕ) (cs : List ℕ) → is_in c cs ≡ false → erase c cs ≡ cs
unfolding erase
erase-absent c [] h = refl
erase-absent c (d ∷ ds) h = elim (Bool-cases (d == c)) [
  | inl hit ↦ absurd (false_true (sym h ∙ ap (λ b. b || is_in c ds) hit))
  | inr miss ↦ rw miss (ap (◌∷◌ d) (erase-absent c ds (ap (λ b. b || is_in c ds) (sym miss) ∙ h)))
]
  where
    false_true : ¬ (false ≡ true)
    false_true e = ground arith

-- The search for the connection whose stream has ended
pub replay-delete_found :
    (cs ever : List ℕ) (c : ℕ)
    → IsDistinct cs
    → replay (record { open_ones = cs; ever = ever }) (delete_found c cs)
      ≡ some (record { open_ones = erase c cs; ever = ever })
replay-delete_found cs ever c h = elim (Bool-cases (is_in c cs)) [
  | inl hit ↦
      ap (replay handles) (delete_found-is_in c cs ∙ ap (λ b. if b then closes c ∷ [] else []) hit)
      ∙ replay-cons handles (record { open_ones = without c cs; ever = ever }) (closes c) []
          (rw hit refl)
      ∙ ap kept (without-erase c cs h)
  | inr miss ↦
      ap (replay handles) (delete_found-is_in c cs ∙ ap (λ b. if b then closes c ∷ [] else []) miss)
      ∙ ap kept (sym (erase-absent c cs miss))
]
  where
    handles : Handles
    handles = record { open_ones = cs; ever = ever }

    kept : List ℕ → Option Handles
    kept x = some (record { open_ones = x; ever = ever })
