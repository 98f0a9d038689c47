-- ===== src/Readers/Tests.antt =====
-- The theorems about the file readers at concrete inputs.
use learnuv.Base.{
  ◌+◌, ◌-◌, ◌%◌, ◌^◌, ◌≡◌, [], ◌∷◌, arith, ok, refl, inl, true, false, Bytes, codes, exited, fail,
}
use learnuv.Base.Int.{pos, negsuc, ℤ}
use learnuv.Readers.{
  finished, failed, on_file_open, run_reads, sync_loop, system_loop, pread_offsets,
}
use learnuv.Readers.Totals.{results, readers_lem, pread_offsets-pages}
use learnuv.Readers.Main.{readfile_main, readfile_sync_main, system_read_main, readers_main_lem}
use learnuv.Readers.Benchmark.{benchmark_main, all_pages, benchmark_main-pages}

readers_lem_run :
    (run_reads (on_file_open (pos 3)) (results (4095 ∷ 99 ∷ []) (pos 0)) ≡ finished 4196)
    × (sync_loop 0 (results (4095 ∷ 99 ∷ []) (pos 0)) ≡ finished 4196)
    × (system_loop 0 (results (4095 ∷ 99 ∷ []) (pos 0)) ≡ ok (finished 4196))
    × (run_reads (on_file_open (pos 3)) (results (4095 ∷ 99 ∷ []) (negsuc 4)) ≡ failed)
    × (sync_loop 0 (results (4095 ∷ 99 ∷ []) (negsuc 4)) ≡ finished ((4196 + 2 ^ 64 - 5) % 2 ^ 64))
    × (system_loop 0 (results (4095 ∷ 99 ∷ []) (negsuc 4)) ≡ ok (finished 4196))
readers_lem_run = readers_lem 3 (4095 ∷ 99 ∷ []) 4 (omega arith)

pread_offsets-pages_run : pread_offsets 8193 ≡ ok (0 ∷ 4096 ∷ 8192 ∷ [])
pread_offsets-pages_run = pread_offsets-pages 8193

-- Numbers of one digit are enough here.
abbrev one_digit : Bytes → ℤ
one_digit [] = pos 0
one_digit (c ∷ cs) = pos (c - b'0')

readers_main_lem_example :
    (readfile_main one_digit (codes "f" ∷ []) (pos 0) (pos 3) (results (4095 ∷ []) (pos 0))
      ≡ ok (finished 4096))
    × (readfile_sync_main one_digit (codes "f" ∷ []) (pos 3) (results (4095 ∷ []) (pos 0))
        ≡ ok (finished 4096))
    × (system_read_main one_digit (codes "f" ∷ []) (pos 3) (results (4095 ∷ []) (pos 0))
        ≡ ok (false, finished 4096))
    × (readfile_main one_digit (codes "f" ∷ []) (pos 0) (pos 3) (results (4095 ∷ []) (negsuc 4))
        ≡ ok failed)
    × (readfile_sync_main one_digit (codes "f" ∷ []) (pos 3) (results (4095 ∷ []) (negsuc 4))
        ≡ ok (finished ((4096 + 2 ^ 64 - 5) % 2 ^ 64)))
    × (system_read_main one_digit (codes "f" ∷ []) (pos 3) (results (4095 ∷ []) (negsuc 4))
        ≡ ok (false, finished 4096))
    × (readfile_main one_digit (codes "f" ∷ []) (pos 0) (negsuc 4) [] ≡ ok failed)
    × (readfile_sync_main one_digit (codes "f" ∷ []) (negsuc 4) [] ≡ fail exited)
    × (system_read_main one_digit (codes "f" ∷ []) (negsuc 4) (negsuc 8 ∷ [])
        ≡ ok (true, finished 0))
    × (readfile_main one_digit [] (pos 0) (pos 3) [] ≡ fail exited)
    × (readfile_sync_main one_digit [] (pos 3) [] ≡ fail exited)
    × (system_read_main one_digit [] (pos 3) [] ≡ fail exited)
readers_main_lem_example =
    readers_main_lem one_digit (codes "f" ∷ []) [] 3 (4095 ∷ []) 4 8 (inl refl) (omega arith)
      (omega arith) (omega arith)

benchmark_main-pages_example :
    benchmark_main (λ i. 8193 + i) ≡ ok (all_pages 1024 0 (λ i. 8193 + i))
benchmark_main-pages_example = benchmark_main-pages (λ i. 8193 + i)
