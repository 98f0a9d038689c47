-- ===== src/Readers.antt =====
-- fs/libuv_readfile.cpp, fs/libuv_readfile_sync.cpp and fs/system_read.cpp count the bytes of a
-- file, fs/benchmark_pread.cpp reads files in pages. What the reads return is an argument, in
-- order.
pub mod Totals
pub mod Main
pub mod Benchmark
mod Tests
use learnuv.Base.{
  ℕ, zero, suc, ◌+◌, ◌^◌, List, [], ◌∷◌, ltb, if◌then◌else◌, out_of_range, out_of_fuel, Outcome, ok,
  fail, ◌>>=◌,
}
use learnuv.Base.Word.{add_size, sub_size}
use learnuv.Base.Int.{ℤ, pos, negsuc}

-- A count that goes on, the count that is printed, or an error message
pub data Progress : Type 0 where
  reading : ℕ → Progress
  finished : ℕ → Progress
  failed : Progress

-- `on_file_open` and `on_read` of libuv_readfile.cpp
pub on_file_open : ℤ → Progress
on_file_open (pos fd) = reading 0
on_file_open (negsuc e) = failed

pub on_read : ℕ → ℤ → Progress
on_read count (negsuc e) = failed
on_read count (pos zero) = finished count
on_read count (pos (suc n)) = reading (add_size count (suc n))

-- The calls of `on_read`, one for each read that was asked for.
pub run_reads : Progress → List ℤ → Progress
unfolding on_read
run_reads (reading count) (r ∷ results) = run_reads (on_read count r) results
run_reads p results = p

-- The loop of libuv_readfile_sync.cpp adds the result before it looks at it.
pub sync_loop : ℕ → List ℤ → Progress
sync_loop count [] = reading count
sync_loop count (pos zero ∷ results) = finished (add_size count 0)
sync_loop count (pos (suc n) ∷ results) = sync_loop (add_size count (suc n)) results
sync_loop count (negsuc e ∷ results) = finished (sub_size count (suc e))

-- The loop of system_read.cpp, whose `int` must not overflow
pub system_loop : ℕ → List ℤ → Outcome Progress
system_loop count [] = ok (reading count)
system_loop count (pos zero ∷ results) = ok (finished count)
system_loop count (pos (suc n) ∷ results) =
    let rest = system_loop (count + suc n) results in
    if ltb (count + suc n) (2 ^ 31) then rest else fail out_of_range
system_loop count (negsuc e ∷ results) = ok (finished count)

-- The offsets of the `pread` calls for a file of `len` bytes, with fuel for the rounds.
pub pread_loop : ℕ → ℕ → ℕ → Outcome (List ℕ)
pread_loop zero len j = fail out_of_fuel
pread_loop (suc fuel) len j =
    let rest = pread_loop fuel len (j + 4096) in
    if ltb j len then rest >>= (λ offsets. ok (j ∷ offsets)) else ok []

pub pread_offsets : ℕ → Outcome (List ℕ)
unfolding pread_loop
pread_offsets len = pread_loop (len + 1) len 0
