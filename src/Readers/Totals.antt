-- ===== src/Readers/Totals.antt =====
-- What the readers print.
use learnuv.Base.{
  ℕ, zero, suc, ◌+◌, ◌-◌, ◌*◌, ◌/◌, ◌%◌, ◌^◌, ◌≤◌, ◌<◌, ◌≡◌, refl, ap, ◌∙◌, List, [], ◌∷◌, arith,
  ok,
}
use learnuv.Base.Word.{sub_size}
use learnuv.Base.Int.{ℤ, pos, negsuc}
use learnuv.Readers.{
  Progress, reading, finished, failed, on_file_open, on_read, run_reads, sync_loop, system_loop,
  pread_loop, pread_offsets,
}

-- Reads that return something, and then the last result.
abbrev pub results : List ℕ → ℤ → List ℤ
results [] last = last ∷ []
results (n ∷ ns) last = pos (suc n) ∷ results ns last

-- The bytes that they return; `n` stands for `n + 1` bytes, so that there is one at least.
abbrev pub total : List ℕ → ℕ
total [] = 0
total (n ∷ ns) = suc n + total ns

abbrev last_count : ℕ → ℤ → Progress
last_count count (pos n) = finished count
last_count count (negsuc e) = failed

abbrev sync_count : ℕ → ℤ → Progress
sync_count count (pos n) = finished count
sync_count count (negsuc e) = finished (sub_size count (suc e))

abbrev IsLast : ℤ → Type 0
IsLast (pos n) = n ≡ 0
IsLast (negsuc e) = Unit {0}

run_reads-results :
    (count : ℕ) (ns : List ℕ) (last : ℤ)
    → IsLast last
    → count + total ns < 2 ^ 31
    → run_reads (reading count) (results ns last) ≡ last_count (count + total ns) last
unfolding run_reads on_read
run_reads-results count [] (pos zero) h size = ap finished (omega arith)
run_reads-results count [] (pos (suc n)) h size = absurd (omega arith)
run_reads-results count [] (negsuc e) h size = refl
run_reads-results count (n ∷ ns) last h size =
    ap (λ c. run_reads (reading c) (results ns last)) (omega arith)
    ∙ run_reads-results (count + suc n) ns last h (omega arith)
    ∙ ap (λ c. last_count c last) (omega arith)

sync_loop-results :
    (count : ℕ) (ns : List ℕ) (last : ℤ)
    → IsLast last
    → count + total ns < 2 ^ 31
    → sync_loop count (results ns last) ≡ sync_count (count + total ns) last
unfolding sync_loop
sync_loop-results count [] (pos zero) h size = ap finished (omega arith)
sync_loop-results count [] (pos (suc n)) h size = absurd (omega arith)
sync_loop-results count [] (negsuc e) h size = ap (λ c. finished (sub_size c (suc e))) (omega arith)
sync_loop-results count (n ∷ ns) last h size =
    ap (λ c. sync_loop c (results ns last)) (omega arith)
    ∙ sync_loop-results (count + suc n) ns last h (omega arith)
    ∙ ap (λ c. sync_count c last) (omega arith)

system_loop-results :
    (count : ℕ) (ns : List ℕ) (last : ℤ)
    → IsLast last
    → count + total ns < 2 ^ 31
    → system_loop count (results ns last) ≡ ok (finished (count + total ns))
unfolding system_loop
system_loop-results count [] (pos zero) h size = ap (λ c. ok (finished c)) (omega arith)
system_loop-results count [] (pos (suc n)) h size = absurd (omega arith)
system_loop-results count [] (negsuc e) h size = ap (λ c. ok (finished c)) (omega arith)
system_loop-results count (n ∷ ns) last h size = ground (
  arith,
  system_loop-results (count + suc n) ns last h (omega arith),
  ap (λ c. ok (finished c)) (total_next count n (total ns)),
)
  where
    total_next : (a b c : ℕ) → a + suc b + c ≡ a + (suc b + c)
    total_next a b c = omega arith

-- For a file below 2 ^ 31 bytes, however its reads are cut, the three readers print the same at
-- its end: the number of its bytes. At a read error they differ: the asynchronous one prints no
-- count, the synchronous one prints the number of bytes read less the error's code, as an unsigned
-- number of 64 bits, and the one on system calls prints the number of bytes read.
pub readers_lem :
    (fd : ℕ) (ns : List ℕ) (e : ℕ)
    → total ns < 2 ^ 31
    → (run_reads (on_file_open (pos fd)) (results ns (pos 0)) ≡ finished (total ns))
      × (sync_loop 0 (results ns (pos 0)) ≡ finished (total ns))
      × (system_loop 0 (results ns (pos 0)) ≡ ok (finished (total ns)))
      × (run_reads (on_file_open (pos fd)) (results ns (negsuc e)) ≡ failed)
      × (sync_loop 0 (results ns (negsuc e)) ≡ finished ((total ns + 2 ^ 64 - suc e) % 2 ^ 64))
      × (system_loop 0 (results ns (negsuc e)) ≡ ok (finished (total ns)))
unfolding on_file_open
readers_lem fd ns e size = (
  run_reads-results 0 ns (pos 0) refl (omega arith) ∙ ap finished (omega arith),
  sync_loop-results 0 ns (pos 0) refl (omega arith) ∙ ap finished (omega arith),
  system_loop-results 0 ns (pos 0) refl (omega arith) ∙ ap (λ c. ok (finished c)) (omega arith),
  run_reads-results 0 ns (negsuc e) tt (omega arith),
  sync_loop-results 0 ns (negsuc e) tt (omega arith)
      ∙ ap (λ c. finished (sub_size c (suc e))) (omega arith),
  system_loop-results 0 ns (negsuc e) tt (omega arith) ∙ ap (λ c. ok (finished c)) (omega arith),
)

-- So many offsets, from `j` on.
abbrev pub pages : ℕ → ℕ → List ℕ
pages zero j = []
pages (suc k) j = j ∷ pages k (j + 4096)

pread_loop-pages :
    (fuel k len j : ℕ)
    → k < fuel
    → len ≤ j + k * 4096
    → j + k * 4096 < len + 4096
    → pread_loop fuel len j ≡ ok (pages k j)
unfolding pread_loop
pread_loop-pages zero k len j h lo hi = absurd (omega arith)
pread_loop-pages (suc fuel) zero len j h lo hi = ground arith
pread_loop-pages (suc fuel) (suc k) len j h lo hi =
    ground (arith, pread_loop-pages fuel k len (j + 4096) (omega arith) (omega arith) (omega arith))

-- The pages of a file of any length are read one after the other from offset 0, as many as are
-- needed to cover it and no more.
pub pread_offsets-pages : (len : ℕ) → pread_offsets len ≡ ok (pages ((len + 4095) / 4096) 0)
unfolding pread_offsets
pread_offsets-pages len =
    pread_loop-pages (len + 1) ((len + 4095) / 4096) len 0 (omega arith) (omega arith) (omega arith)
