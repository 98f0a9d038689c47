-- ===== src/Chat/System/Merge.antt =====
-- What the server of the chat has read is a merge of what its clients have written.
use learnuv.Base.{
  ℕ, concat-append, ◌≡◌, ◌≢◌, refl, sym, ap, ap₂, ◌∙◌, inl, inr, true, false, List, [], ◌∷◌, ◌++◌,
  append-nil, append_assoc, arith, Bytes, concat, ◌==◌, if◌then◌else◌, Bool-cases, ==→eq,
  ==-false→ne,
}
use learnuv.Chat.Server.Arrivals.{Arrival, pieces}
use learnuv.Chat.System.{
  Peer, System, update, Step, joins, leaves, fails, hangs_up, has_written, types, hears, prints,
  Run, begins, then_step,
}

-- The bytes that were read from one client
abbrev pub bytes_of : ℕ → List Arrival → Bytes
bytes_of j [] = []
bytes_of j ((c, x) ∷ xs) = if c == j then x ++ bytes_of j xs else bytes_of j xs

bytes_of-append :
    (j : ℕ) (xs ys : List Arrival) → bytes_of j (xs ++ ys) ≡ bytes_of j xs ++ bytes_of j ys
bytes_of-append j [] ys = refl
bytes_of-append j ((c, x) ∷ xs) ys = elim (Bool-cases (c == j)) [
  | inl hit ↦ rw hit (
      ap (λ z. x ++ z) (bytes_of-append j xs ys)
      ∙ sym (append_assoc x (bytes_of j xs) (bytes_of j ys)))
  | inr miss ↦ rw miss (bytes_of-append j xs ys)
]

pieces-append : (xs ys : List Arrival) → pieces (xs ++ ys) ≡ pieces xs ++ pieces ys
pieces-append [] ys = refl
pieces-append ((c, x) ∷ xs) ys = ap (◌∷◌ x) (pieces-append xs ys)

-- The reads, joined in their order, are all bytes that the server has read, and those of one
-- client, joined in their order, the bytes that it has read from that client.
pub record IsMerged (s : System) : Type 0 where
  pub whole : concat (pieces s.arrivals) ≡ s.heard
  pub parts : (j : ℕ) → bytes_of j s.arrivals ≡ (s.peers j).gone

-- Where no client's bytes are read.
abbrev IsQuiet : (ℕ → Peer) → (ℕ → Peer) → Type 0
IsQuiet peers peers' = (j : ℕ) → (peers' j).gone ≡ (peers j).gone

update-IsQuiet :
    (peers : ℕ → Peer) (i : ℕ) (p : Peer)
    → p.gone ≡ (peers i).gone
    → IsQuiet peers (update peers i p)
update-IsQuiet peers i p e j = elim (Bool-cases (j == i)) [
  | inl hit ↦ rw hit (e ∙ ap (λ k. (peers k).gone) (sym (==→eq hit)))
  | inr miss ↦ rw miss refl
]

hears-IsMerged :
    (s : System) (i : ℕ) (x rest : Bytes) (j : ℕ)
    → bytes_of j s.arrivals ≡ (s.peers j).gone
    → bytes_of j (s.arrivals ++ (i, x) ∷ [])
      ≡ (update s.peers i (record (s.peers i) { gone = (s.peers i).gone ++ x; up = rest }) j).gone
hears-IsMerged s i x rest j h = elim (Bool-cases (j == i)) [
  | inl hit ↦
      let here : (i == j) ≡ true = ground (arith, ==→eq hit) in
      bytes_of-append j s.arrivals ((i, x) ∷ [])
      ∙ rw (hit, here) (ap₂ ◌++◌ (h ∙ ap (λ k. (s.peers k).gone) (==→eq hit)) (append-nil x))
  | inr miss ↦
      let away : (i == j) ≡ false = ground (arith, ==-false→ne miss) in
      bytes_of-append j s.arrivals ((i, x) ∷ [])
      ∙ rw (miss, away) (append-nil (bytes_of j s.arrivals) ∙ h)
]

Step-IsMerged : {s t : System} → Step s t → IsMerged s → IsMerged t
Step-IsMerged (joins status got accepted e) h = record { whole = h.whole; parts = h.parts }
Step-IsMerged (leaves i e) h = record { whole = h.whole; parts = h.parts }
Step-IsMerged (fails i k base small short e) h = record { whole = h.whole; parts = h.parts }
Step-IsMerged {s} (hangs_up i nread base ended e) h = record {
  whole = h.whole;
  parts = λ j. h.parts j ∙ sym (update-IsQuiet s.peers i _ refl j);
}
Step-IsMerged {s} (has_written i status) h = record {
  whole = h.whole;
  parts = λ j. h.parts j ∙ sym (update-IsQuiet s.peers i _ refl j);
}
Step-IsMerged {s} (types i nread base e) h = record {
  whole = h.whole;
  parts = λ j. h.parts j ∙ sym (update-IsQuiet s.peers i _ refl j);
}
Step-IsMerged {s} (prints i x rest comes small e) h = record {
  whole = h.whole;
  parts = λ j. h.parts j ∙ sym (update-IsQuiet s.peers i _ refl j);
}
Step-IsMerged {s} (hears i x rest comes small e) h = record {
  whole =
      ap concat (pieces-append s.arrivals ((i, x) ∷ []))
      ∙ concat-append (pieces s.arrivals) (x ∷ [])
      ∙ ap₂ ◌++◌ h.whole (append-nil x);
  parts = λ j. hears-IsMerged s i x rest j (h.parts j);
}

pub Run-IsMerged : {s : System} → Run s → IsMerged s
Run-IsMerged begins = record { whole = refl; parts = λ j. refl }
Run-IsMerged (then_step r step) = Step-IsMerged step (Run-IsMerged r)

pub append_empty : (x y : Bytes) → x ++ y ≡ [] → (x ≡ []) × (y ≡ [])
append_empty [] y e = (refl, e)
append_empty (b ∷ x) y e = absurd (ground arith)

bytes_of-hit :
    (c j : ℕ) (x : Bytes) (xs : List Arrival)
    → (c == j) ≡ true
    → bytes_of j ((c, x) ∷ xs) ≡ x ++ bytes_of j xs
bytes_of-hit c j x xs e = rw e refl

bytes_of-miss :
    (c j : ℕ) (x : Bytes) (xs : List Arrival)
    → (c == j) ≡ false
    → bytes_of j ((c, x) ∷ xs) ≡ bytes_of j xs
bytes_of-miss c j x xs e = rw e refl

bytes_of-empty :
    (j : ℕ) (c : ℕ) (x : Bytes) (xs : List Arrival)
    → bytes_of j ((c, x) ∷ xs) ≡ []
    → bytes_of j xs ≡ []
bytes_of-empty j c x xs e = elim (Bool-cases (c == j)) [
  | inl hit ↦ (append_empty x (bytes_of j xs) (sym (bytes_of-hit c j x xs hit) ∙ e)).1
  | inr miss ↦ sym (bytes_of-miss c j x xs miss) ∙ e
]

-- If nothing was read from any other client, the reads are those of this one.
pub bytes_of-alone :
    (i : ℕ) (xs : List Arrival)
    → ((j : ℕ) → j ≢ i → bytes_of j xs ≡ [])
    → concat (pieces xs) ≡ bytes_of i xs
bytes_of-alone i [] h = refl
bytes_of-alone i ((c, x) ∷ xs) h =
    let rest = bytes_of-alone i xs (λ j other. bytes_of-empty j c x xs (h j other)) in
    elim (Bool-cases (c == i)) [
      | inl hit ↦ ap (λ z. x ++ z) rest ∙ sym (bytes_of-hit c i x xs hit)
      | inr miss ↦
          let here : (c == c) ≡ true = ground arith in
          let (no_bytes, _) =
            append_empty x (bytes_of c xs)
              (sym (bytes_of-hit c c x xs here) ∙ h c (==-false→ne miss)) in
          ap (λ y. y ++ concat (pieces xs)) no_bytes ∙ rest ∙ sym (bytes_of-miss c i x xs miss)
    ]
