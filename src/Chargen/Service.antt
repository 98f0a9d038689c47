-- ===== src/Chargen/Service.antt =====
-- The character generator goes on as long as nothing fails.
use learnuv.Base.{
  ℕ, zero, suc, ◌+◌, ◌<◌, ◌≡◌, refl, ap, true, Option, none, some, List, [], ◌∷◌, arith, length,
  All, Outcome, ok, fail, ◌%◌, ◌^◌, ◌≢◌, sym, subst, inl, inr, Bool, false, ◌++◌, length-append,
  if◌then◌else◌, assertion, ◌>>=◌,
}
use learnuv.Base.Word.{add_size}
use learnuv.Base.Int.{pos, negsuc}
use learnuv.Uv.{check_uv}
use learnuv.Chargen.{
  Stats, Chargen, Output, find, put, freed_on_error, on_write_end, Accept, Event, write_ended,
  connection, timeout, message_size, on_new_connection, on_timeout, step, run,
}
use learnuv.Chargen.Counts.{
  IsLive, IsWell, counted, reported, IsCounted, fill-ok, Found, find-Found, snoc-IsLive,
  run-IsCounted, IsGreeting,
}

abbrev IsFineAccept : Accept → Type 0
IsFineAccept a =
    (a.got ≡ true)
    × (check_uv a.accepted ≡ ok tt)
    × (check_uv a.peer ≡ ok tt)
    × (check_uv a.name ≡ ok tt)

-- With `n` connections so far: writes that succeed end on one of them, and no accept fails.
abbrev pub IsFine : ℕ → List Event → Type 0
IsFine n [] = Unit {0}
IsFine n (write_ended i (pos status) ∷ es) = (i < n) × IsFine n es
IsFine n (write_ended i (negsuc e) ∷ es) = ⊥
IsFine n (connection (pos status) a ∷ es) = IsFineAccept a × IsFine (n + 1) es
IsFine n (connection (negsuc e) a ∷ es) = IsFine n es
IsFine n (timeout now ∷ es) = IsFine n es

-- The outcome is a state with `n` connections.
abbrev HasServed : ℕ → Outcome (List Output × Chargen) → Type 0
HasServed n (fail why) = ⊥
HasServed n (ok (out, t)) = IsWell t × (length t.stats ≡ n)

find-present :
    (os : List (Option Stats)) (i : ℕ) → All IsLive os → i < length os → find os i ≢ fail assertion
unfolding find
find-present [] i h lt e = omega arith
find-present (none ∷ os) i h lt e = h.0
find-present (some st ∷ os) zero h lt e = ground arith
find-present (some st ∷ os) (suc i) h lt e = find-present os i h.1 (omega arith) e

present-Found :
    (os : List (Option Stats)) (i : ℕ) → All IsLive os → i < length os → Found os i (find os i)
present-Found os i h lt = elim (find-Found os i h) [
  | inl missing ↦ absurd (find-present os i h lt missing)
  | inr f ↦ f
]

length-put :
    (os : List (Option Stats)) (i : ℕ) (new : Option Stats) → length (put os i new) ≡ length os
unfolding put
length-put [] i new = refl
length-put (o ∷ os) zero new = refl
length-put (o ∷ os) (suc i) new = ap suc (length-put os i new)

write_ended-HasServed :
    (s : Chargen) (i status : ℕ)
    → IsWell s
    → i < length s.stats
    → HasServed (length s.stats) (on_write_end s i (pos status))
unfolding on_write_end freed_on_error
write_ended-HasServed s i status w lt =
    let f = present-Found s.stats i w.all_live lt in
    let (t, filled, size, text, same, kept) = fill-ok s w.size in
    let st = record f.st { transfered = add_size f.st.transfered message_size } in
    rw (f.found, filled, same, f.found)
      (record { size = size; all_live = (f.changed st).1 }, length-put s.stats i (some st))

connection-HasServed :
    (s : Chargen) (status : ℕ) (a : Accept)
    → IsWell s
    → IsFineAccept a
    → HasServed (length s.stats + 1) (on_new_connection s (pos status) a)
unfolding on_new_connection
connection-HasServed s status a w (got, accepted, peer, name) =
    let (t, filled, size, text, same, kept) = fill-ok s w.size in
    let st : Stats = record { start = a.now; transfered = 0 } in
    rw (got, accepted, peer, named a.is_inet, filled, same)
      (
        record { size = size; all_live = snoc-IsLive s.stats st w.all_live },
        length-append s.stats (some st ∷ []),
      )
  where
    named : (inet : Bool) → (if inet then check_uv a.name else ok tt) ≡ ok tt
    named true = name
    named false = refl

chain-HasServed :
    (n : ℕ) (o : Outcome (List Output × Chargen)) (next : Chargen → Outcome (List Output × Chargen))
    → HasServed n o
    → ((t : Chargen)
        → IsWell t
        → length t.stats ≡ n
        → (u : Chargen) × (out : List Output) × (next t ≡ ok (out, u)))
    → (u : Chargen) × (out : List Output) × (◌>>=◌ {Next = List Output × Chargen} o
          (λ r. next r.1 >>= (λ r'. ok (r.0 ++ r'.0, r'.1)))
        ≡ ok (out, u))
chain-HasServed n (fail why) next c h = absurd c
chain-HasServed n (ok (out, t)) next (w, many) h =
    let (u, out', e) = h t w many in (u, out ++ out', rw e refl)

-- While no write and no accept fails, the program goes on.
run_fine :
    (s : Chargen) (es : List Event)
    → IsWell s
    → IsFine (length s.stats) es
    → (u : Chargen) × (out : List Output) × (run s es ≡ ok (out, u))
unfolding run step on_timeout
run_fine s [] w h = (s, [], refl)
run_fine s (write_ended i (pos status) ∷ es) w h =
    chain-HasServed (length s.stats) (on_write_end s i (pos status)) (λ t. run t es)
      (write_ended-HasServed s i status w h.0)
      (λ t w' many. run_fine t es w' (subst (λ n. IsFine n es) (sym many) h.1))
run_fine s (write_ended i (negsuc e) ∷ es) w h = absurd h
run_fine s (connection (pos status) a ∷ es) w h =
    chain-HasServed (length s.stats + 1) (on_new_connection s (pos status) a) (λ t. run t es)
      (connection-HasServed s status a w h.0)
      (λ t w' many. run_fine t es w' (subst (λ n. IsFine n es) (sym many) h.1))
run_fine s (connection (negsuc e) a ∷ es) w h =
    chain-HasServed (length s.stats) (on_new_connection s (negsuc e) a) (λ t. run t es)
      (unfold on_new_connection in (w, refl))
      (λ t w' many. run_fine t es w' (subst (λ n. IsFine n es) (sym many) h))
run_fine s (timeout now ∷ es) w h =
    chain-HasServed (length s.stats) (ok (on_timeout s now)) (λ t. run t es)
      (record { size = w.size; all_live = w.all_live }, refl)
      (λ t w' many. run_fine t es w' (subst (λ n. IsFine n es) (sym many) h))

-- While no write and no accept fails, the program goes on, and then its counters are in step: the
-- bytes that `on_timeout` has reported, together with those counted since, are the bytes that all
-- connections count for themselves, modulo 2 ^ 64; and every write is of the first eight characters
-- of the text, as many as a pointer has bytes.
pub run-served :
    (s : Chargen) (es : List Event)
    → IsWell s
    → IsFine (length s.stats) es
    → (t : Chargen) × (out : List Output) × (run s es ≡ ok (out, t))
      × All IsGreeting out
      × ((reported out + t.transfered + counted s.stats) % 2 ^ 64
          ≡ (s.transfered + counted t.stats) % 2 ^ 64)
run-served s es w h =
    let (t, out, e) = run_fine s es w h in
    let (_, texts, sums) = subst (IsCounted s) e (run-IsCounted s es w) in (t, out, e, texts, sums)
