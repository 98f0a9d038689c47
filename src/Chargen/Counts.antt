-- ===== src/Chargen/Counts.antt =====
-- What the counters count.
use learnuv.Base.{
  ℕ, zero, suc, ◌+◌, ◌%◌, ◌^◌, ◌≡◌, refl, sym, ap, ◌∙◌, ◌⊎◌, inl, inr, Option, none, some, List, [],
  ◌∷◌, ◌++◌, arith, codes, length, take, overwrite, All, length-overwrite, take-overwrite,
  take-take, assertion, use_after_free, Outcome, ok, fail, All-append, if◌then◌else◌, ◌>>=◌, ◌>>◌,
}
use learnuv.Base.Word.{add_size}
use learnuv.Base.Int.{pos, negsuc, ℤ}
use learnuv.Uv.{check_uv, safe_malloc}
use learnuv.Chargen.{
  buf_size, message, message_size, Stats, Chargen, Output, wrote, rate, fill, find, put,
  on_write_end, step, run, freed_on_error, Accept, on_new_connection, on_timeout, Event,
  write_ended, connection, timeout,
}

-- The text is in the buffer and no object is freed.
abbrev pub IsLive : Option Stats → Type 0
IsLive none = ⊥
IsLive (some st) = Unit {0}

-- The bytes that the connections count, and those that the printed lines report.
abbrev pub counted : List (Option Stats) → ℕ
counted [] = 0
counted (none ∷ os) = counted os
counted (some st ∷ os) = st.transfered + counted os

abbrev pub reported : List Output → ℕ
reported [] = 0
reported (wrote i bytes ∷ out) = reported out
reported (rate n t ∷ out) = n + reported out

-- Every write is of the first eight characters of the text.
abbrev pub IsGreeting : Output → Type 0
IsGreeting (wrote i bytes) = bytes ≡ codes "hello wo"
IsGreeting (rate n t) = Unit {0}

pub record IsWell (s : Chargen) : Type 0 where
  pub size : length s.global_buf ≡ buf_size
  pub all_live : All IsLive s.stats

-- How a step or a run may end, with `before` bytes reported already: by a failed write's use of its
-- freed object, by the end of the process, or with the counters in step.
abbrev pub IsCounted : Chargen → Outcome (List Output × Chargen) → Type 0
IsCounted s (fail why) = Unit {0}
IsCounted s (ok (out, t)) =
    IsWell t
    × All IsGreeting out
    × ((reported out + t.transfered + counted s.stats) % 2 ^ 64
        ≡ (s.transfered + counted t.stats) % 2 ^ 64)

reported-append : (xs ys : List Output) → reported (xs ++ ys) ≡ reported xs + reported ys
reported-append [] ys = omega arith
reported-append (wrote i bytes ∷ xs) ys = reported-append xs ys
reported-append (rate n t ∷ xs) ys = omega (arith, reported-append xs ys)

counted-append :
    (xs : List (Option Stats)) (st : Stats)
    → counted (xs ++ some st ∷ []) ≡ counted xs + st.transfered
counted-append [] st = omega arith
counted-append (none ∷ xs) st = counted-append xs st
counted-append (some x ∷ xs) st = omega (arith, counted-append xs st)

pub fill-ok :
    (s : Chargen)
    → length s.global_buf ≡ buf_size
    → (t : Chargen) × (fill s ≡ ok t)
      × (length t.global_buf ≡ buf_size)
      × (take message_size t.global_buf ≡ codes "hello wo")
      × (t.stats ≡ s.stats)
      × (t.transfered ≡ s.transfered)
unfolding fill
fill-ok s h = (
  record s { global_buf = overwrite 0 (message ++ 0 ∷ []) s.global_buf },
  ground arith,
  length-overwrite 0 (message ++ 0 ∷ []) s.global_buf ∙ h,
  text,
  refl,
  refl,
)
  where
    text : take message_size (overwrite 0 (message ++ 0 ∷ []) s.global_buf) ≡ codes "hello wo"
    text =
        sym (take-take 8 13 (overwrite 0 (message ++ 0 ∷ []) s.global_buf) (omega arith))
        ∙ ap (take 8) (take-overwrite 0 13 (message ++ 0 ∷ []) s.global_buf (omega arith) refl)

-- An object that is looked up, in a list without freed ones.
pub record Found (os : List (Option Stats)) (i : ℕ) (o : Outcome Stats) : Type 0 where
  pub st : Stats
  pub found : o ≡ ok st
  pub changed :
      (new : Stats)
      → (counted (put os i (some new)) + st.transfered ≡ counted os + new.transfered)
        × All IsLive (put os i (some new))

pub find-Found :
    (os : List (Option Stats)) (i : ℕ)
    → All IsLive os
    → (find os i ≡ fail assertion) ⊎ Found os i (find os i)
unfolding find put
find-Found [] i h = inl refl
find-Found (none ∷ os) i h = absurd h.0
find-Found (some st ∷ os) zero h =
    inr (record { st = st; found = refl; changed = λ new. (omega arith, (tt, h.1)) })
find-Found (some st ∷ os) (suc i) h = elim (find-Found os i h.1) [
  | inl e ↦ inl e
  | inr f ↦ inr (record {
    st = f.st;
    found = f.found;
    changed = λ new. (omega (arith, f.changed new), (tt, (f.changed new).1));
  })
]

-- An object that is freed is found no more.
find-put-none :
    (os : List (Option Stats)) (i : ℕ) (st : Stats)
    → find os i ≡ ok st
    → find (put os i none) i ≡ fail use_after_free
unfolding find put
find-put-none [] i st e = absurd (ground arith)
find-put-none (o ∷ os) zero st e = refl
find-put-none (none ∷ os) (suc i) st e = find-put-none os i st e
find-put-none (some x ∷ os) (suc i) st e = find-put-none os i st e

-- A write that fails makes the program use the counters that it has just freed.
pub on_write_end-fails :
    (s : Chargen) (i e : ℕ) (st : Stats)
    → length s.global_buf ≡ buf_size
    → find s.stats i ≡ ok st
    → on_write_end s i (negsuc e) ≡ fail use_after_free
unfolding on_write_end freed_on_error
on_write_end-fails s i e st h found =
    let (t, filled, _, _, same, _) = fill-ok (record s { stats = put s.stats i none }) h in
    rw (found, filled, same, find-put-none s.stats i st found)

on_write_end-IsCounted :
    (s : Chargen) (i : ℕ) (n : ℕ) → IsWell s → IsCounted s (on_write_end s i (pos n))
unfolding on_write_end freed_on_error
on_write_end-IsCounted s i n w = elim (find-Found s.stats i w.all_live) [
  | inl e ↦ rw e tt
  | inr f ↦
      let (t, filled, size, text, same, kept) = fill-ok s w.size in
      let (adds, live) =
        f.changed (record f.st { transfered = add_size f.st.transfered message_size }) in
      rw (f.found, filled, same, f.found)
        (record { size = size; all_live = live }, (text, tt), omega (arith, adds, kept))
]

failed-IsCounted : (s : Chargen) (i e : ℕ) → IsWell s → IsCounted s (on_write_end s i (negsuc e))
failed-IsCounted s i e w = elim (find-Found s.stats i w.all_live) [
  | inl missing ↦ unfold on_write_end in rw missing tt
  | inr f ↦ rw (on_write_end-fails s i e f.st w.size f.found) tt
]

pub snoc-IsLive :
    (os : List (Option Stats)) (st : Stats) → All IsLive os → All IsLive (os ++ some st ∷ [])
snoc-IsLive os st h = All-append IsLive os (some st ∷ []) h (tt, tt)

on_new_connection-IsCounted :
    (s : Chargen) (status : ℤ) (a : Accept) → IsWell s → IsCounted s (on_new_connection s status a)
unfolding on_new_connection
on_new_connection-IsCounted s (negsuc e) a w = (w, tt, omega arith)
on_new_connection-IsCounted s (pos n) a w =
    tests (safe_malloc a.got) (check_uv a.accepted) (check_uv a.peer)
      (if a.is_inet then check_uv a.name else ok tt)
  where
    filled : IsCounted s (
        ◌>>=◌ {Next = List Output × Chargen} (fill s) (λ s'. ok (
          wrote (length s'.stats) (take message_size s'.global_buf) ∷ [],
          record s' { stats = s'.stats ++ some (record { start = a.now; transfered = 0 }) ∷ [] },
        )))
    filled =
        let (t, e, size, text, same, kept) = fill-ok s w.size in
        rw (e, same)
          (
            record {
              size = size;
              all_live = snoc-IsLive s.stats (record { start = a.now; transfered = 0 }) w.all_live;
            },
            (text, tt),
            omega (arith, kept, counted-append s.stats (record { start = a.now; transfered = 0 })),
          )

    tests :
        (o₁ o₂ o₃ o₄ : Outcome (Unit {0}))
        → IsCounted s (
            o₁
            >> (o₂
                >> (o₃
                    >> (o₄
                        >> ◌>>=◌ {Next = List Output × Chargen} (fill s) (λ s'. ok (
                          wrote (length s'.stats) (take message_size s'.global_buf) ∷ [],
                          record s' {
                            stats =
                                s'.stats ++ some (record { start = a.now; transfered = 0 }) ∷ [];
                          },
                        ))))))
    tests (fail why) o₂ o₃ o₄ = tt
    tests (ok _) (fail why) o₃ o₄ = tt
    tests (ok _) (ok _) (fail why) o₄ = tt
    tests (ok _) (ok _) (ok _) (fail why) = tt
    tests (ok _) (ok _) (ok _) (ok _) = filled

step-IsCounted : (s : Chargen) (e : Event) → IsWell s → IsCounted s (step s e)
unfolding step on_timeout
step-IsCounted s (write_ended i (pos n)) w = on_write_end-IsCounted s i n w
step-IsCounted s (write_ended i (negsuc e)) w = failed-IsCounted s i e w
step-IsCounted s (connection status a) w = on_new_connection-IsCounted s status a w
step-IsCounted s (timeout now) w =
    (record { size = w.size; all_live = w.all_live }, (tt, tt), omega arith)

chain-IsCounted :
    (s : Chargen) (o : Outcome (List Output × Chargen))
    (next : Chargen → Outcome (List Output × Chargen))
    → IsCounted s o
    → ((t : Chargen) → IsWell t → IsCounted t (next t))
    → IsCounted s (o >>= (λ r. next r.1 >>= (λ r'. ok (r.0 ++ r'.0, r'.1))))
chain-IsCounted s (fail why) next c h = tt
chain-IsCounted s (ok (out, t)) next (w, texts, sums) h = joined (next t) (h t w)
  where
    joined :
        (o : Outcome (List Output × Chargen))
        → IsCounted t o
        → IsCounted s (◌>>=◌ {Next = List Output × Chargen} o (λ r'. ok (out ++ r'.0, r'.1)))
    joined (fail why) c = tt
    joined (ok (out', u)) (w', texts', sums') =
        (w', All-append IsGreeting out out' texts texts', omega (arith, reported-append out out'))

pub run-IsCounted : (s : Chargen) (es : List Event) → IsWell s → IsCounted s (run s es)
unfolding run
run-IsCounted s [] w = (w, tt, omega arith)
run-IsCounted s (e ∷ es) w =
    chain-IsCounted s (step s e) (λ t. run t es) (step-IsCounted s e w)
      (λ t w'. run-IsCounted t es w')
