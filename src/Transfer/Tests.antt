-- ===== src/Transfer/Tests.antt =====
-- Runs of the file transfer, and its theorems at concrete inputs.
use learnuv.Base.{
  ℕ, ◌+◌, ◌≡◌, refl, List, [], ◌∷◌, ◌++◌, arith, Bytes, codes, length, replicate, length-replicate,
  out_of_range, ok, fail,
}
use learnuv.Base.Int.{pos, negsuc}
use learnuv.Transfer.{reading, stopped, cleaned, Transfer, run}
use learnuv.Transfer.Whole.{
  chunk_answers, end_answers, with_zeros, transfer_lem, overrun_lem, failure_lem,
}
use learnuv.Transfer.Shared.{Shared, landed, called, moments, sent_by, shared_lem}

abbrev opened : Transfer
opened = record { pending = reading; buffer = replicate 8192 0; sent = [] }

abbrev parts : List Bytes
parts = codes "ab" ∷ codes "c" ∷ []

abbrev full : Bytes
full = replicate 8192 120

transfer_lem_example :
    (t' : Transfer) × (run opened (chunk_answers parts ++ end_answers) ≡ ok t')
    × (t'.pending ≡ cleaned)
    × (t'.sent ≡ [] ++ with_zeros parts)
    × (length t'.sent ≡ 0 + 3 + 2)
transfer_lem_example =
    transfer_lem opened parts refl (length-replicate {A = ℕ} 8192 0)
      ((omega arith, omega arith), ((omega arith, omega arith), tt))

overrun_lem_run :
    run opened
      (chunk_answers parts ++ record { result = pos (length full); bytes = full } ∷ end_answers)
    ≡ fail out_of_range
overrun_lem_run =
    overrun_lem opened parts full end_answers refl (length-replicate {A = ℕ} 8192 0)
      ((omega arith, omega arith), ((omega arith, omega arith), tt))
      (length-replicate {A = ℕ} 8192 120)

failure_lem_run :
    (t' : Transfer) × (run opened (record { result = negsuc 4; bytes = [] } ∷ end_answers) ≡ ok t')
    × (t'.pending ≡ stopped)
    × (t'.sent ≡ [])
failure_lem_run = failure_lem opened 4 end_answers tt

abbrev two_readers : Shared
two_readers = record { buffer = replicate 8192 0; connections = opened ∷ opened ∷ [] }

shared_lem_example :
    ((t : Shared) × (moments two_readers
          (landed (codes "ab") ∷ called 0 (pos 2) ∷ landed (codes "q") ∷ [])
        ≡ ok t)
      × (sent_by t.connections 0 ≡ [] ++ (codes "ab" ++ 0 ∷ [])))
    × ((t : Shared) × (moments two_readers (
            landed (codes "ab") ∷ landed (codes "q") ∷ landed (codes "xyz") ∷ called 0 (pos 2) ∷ [])
          ≡ ok t)
        × (sent_by t.connections 0 ≡ [] ++ (codes "xy" ++ 0 ∷ [])))
shared_lem_example =
    shared_lem two_readers 0 (codes "ab") (codes "xyz") (codes "q" ∷ [])
      (length-replicate {A = ℕ} 8192 0) (omega arith) (omega arith, omega arith)
      (omega arith, omega arith)
