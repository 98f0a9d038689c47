-- ===== src/Entry.antt =====
-- main.c, which tries out a timer and an opened file on the default loop. The loop is an argument:
-- what it reports, in its order, for the requests that were made before it runs.
use learnuv.Base.{ℕ, ◌≡◌, refl, ◌⊎◌, inl, inr, Bool, true, false, List, [], ◌∷◌, ◌++◌, Bytes, codes}
use learnuv.Base.Int.{ℤ, pos, negsuc}
use learnuv.Pingpong.Client.Answers.{answered}

pub data Request : Type 0 where
  start_timer : ℕ → ℕ → Request
  open_file : Bytes → Request

-- The callbacks, with what they are told: the repeat of the timer, and the result of the open.
pub data Report : Type 0 where
  timer_due : ℕ → Report
  file_opened : ℤ → Report

-- What is printed: "hello world" with a number, "ok" or "failed", and the last line
pub data Line : Type 0 where
  hello : ℕ → Line
  answer : Bool → Line
  now_quiting : Line

-- `timer_cb(handle)`
pub timer_cb : ℕ → Line
timer_cb repeat = hello repeat

-- `open_cb(req)`
pub open_cb : ℤ → Line
open_cb (pos fd) = answer true
open_cb (negsuc e) = answer false

pub on_reports : List Report → List Line
unfolding timer_cb open_cb
on_reports [] = []
on_reports (timer_due repeat ∷ rs) = timer_cb repeat ∷ on_reports rs
on_reports (file_opened result ∷ rs) = open_cb result ∷ on_reports rs

-- `uv_timer_start(&timer, timer_cb, timeout, repeat)` and `uv_fs_open`
abbrev pub requests : List Request
requests = start_timer 1000 0 ∷ open_file (codes "/Users/skyitachi/tmp/addon/hello.cc") ∷ []

-- `main`
pub main : (List Request → List Report) → List Line
unfolding on_reports
main run_loop = on_reports (run_loop requests) ++ now_quiting ∷ []

-- What libuv documents of the loop, for a timer and an open: it runs until both are done, a timer
-- whose repeat is 0 is due once, and so is the answer to the open, in whichever order.
abbrev IsLoop : (List Request → List Report) → Type 0
IsLoop run_loop =
    (timeout : ℕ) (path : Bytes)
    → (result : ℤ) × ((run_loop (start_timer timeout 0 ∷ open_file path ∷ [])
          ≡ timer_due 0 ∷ file_opened result ∷ [])
        ⊎ (run_loop (start_timer timeout 0 ∷ open_file path ∷ [])
            ≡ file_opened result ∷ timer_due 0 ∷ []))

open_cb-answer : (result : ℤ) → (found : Bool) × (open_cb result ≡ answer found)
unfolding open_cb
open_cb-answer (pos fd) = (true, refl)
open_cb-answer (negsuc e) = (false, refl)

-- The program greets once, with the number 0, prints one answer, in whichever order, and quits.
main_lem :
    (run_loop : List Request → List Report)
    → IsLoop run_loop
    → (found : Bool) × ((main run_loop ≡ hello 0 ∷ answer found ∷ now_quiting ∷ [])
        ⊎ (main run_loop ≡ answer found ∷ hello 0 ∷ now_quiting ∷ []))
unfolding main on_reports timer_cb
main_lem run_loop h =
    let (result, reports) = h 1000 (codes "/Users/skyitachi/tmp/addon/hello.cc") in
    let (found, answered) = open_cb-answer result in
    elim reports [
      | inl e ↦ (found, inl (rw (e, answered) refl))
      | inr e ↦ (found, inr (rw (e, answered) refl))
    ]
