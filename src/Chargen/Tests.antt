-- ===== src/Chargen/Tests.antt =====
-- The theorems about the character generator at concrete inputs.
use learnuv.Base.{
  ℕ, true, List, [], ◌∷◌, length-replicate, ◌+◌, ◌%◌, ◌^◌, ◌≡◌, refl, some, arith, All,
  use_after_free, ok, fail,
}
use learnuv.Base.Int.{pos, negsuc}
use learnuv.Uv.{check_uv}
use learnuv.Chargen.{
  begin, Accept, Event, write_ended, connection, timeout, run, Chargen, Output, find, on_write_end,
}
use learnuv.Chargen.Counts.{IsWell, counted, reported, IsGreeting, on_write_end-fails}
use learnuv.Chargen.Service.{run-served}

abbrev friendly : Accept
friendly = record {
  got = true;
  accepted = pos 0;
  peer = pos 0;
  is_inet = true;
  name = pos 0;
  now = 5;
}

abbrev busy : List Event
busy =
    connection (pos 0) friendly
    ∷ write_ended 0 (pos 0)
    ∷ connection (pos 0) friendly
    ∷ timeout 1000
    ∷ write_ended 1 (pos 0)
    ∷ write_ended 0 (pos 0)
    ∷ []

begin-IsWell : IsWell (begin 3)
begin-IsWell = record { size = length-replicate {A = ℕ} 4096 0; all_live = tt }

abbrev one_client : Chargen
one_client = record (begin 3) { stats = some (record { start = 5; transfered = 8 }) ∷ [] }

run-served_example :
    (t : Chargen) × (out : List Output) × (run (begin 3) busy ≡ ok (out, t))
    × All IsGreeting out
    × ((reported out + t.transfered + 0) % 2 ^ 64 ≡ (0 + counted t.stats) % 2 ^ 64)
run-served_example =
    run-served (begin 3) busy begin-IsWell
      (fine, (omega arith, (fine, (omega arith, (omega arith, tt)))))
  where
    fine :
        (true ≡ true)
        × (check_uv (pos 0) ≡ ok tt)
        × (check_uv (pos 0) ≡ ok tt)
        × (check_uv (pos 0) ≡ ok tt)
    fine = (refl, refl, refl, refl)

failed_write : on_write_end one_client 0 (negsuc 31) ≡ fail use_after_free
failed_write =
    on_write_end-fails one_client 0 31 (record { start = 5; transfered = 8 })
      (length-replicate {A = ℕ} 4096 0) (unfold find in refl)
