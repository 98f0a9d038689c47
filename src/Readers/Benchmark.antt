-- ===== src/Readers/Benchmark.antt =====
-- `main` of fs/benchmark_pread.cpp.
use learnuv.Base.{
  ℕ, zero, suc, ◌+◌, ◌/◌, ◌≡◌, refl, List, [], ◌∷◌, ◌++◌, Bytes, codes, Outcome, ok, ◌>>=◌,
}
use learnuv.Base.Decimal.{decimal}
use learnuv.Readers.{pread_offsets}
use learnuv.Readers.Totals.{pages, pread_offsets-pages}

-- `"/tmp/test_engine3" + "/VALUE" + std::to_string(i)`
pub file_name : ℕ → Bytes
file_name i = codes "/tmp/test_engine3/VALUE" ++ decimal i

-- The loop of `main` over the files from number `i` on, by the length that `fstat` gives for each:
-- the files' names, with the offsets that are read.
pub benchmark_loop : ℕ → ℕ → (ℕ → ℕ) → Outcome (List (Bytes × List ℕ))
unfolding file_name pread_offsets
benchmark_loop zero i len = ok []
benchmark_loop (suc files) i len = do
  offsets ← pread_offsets (len i)
  rest ← benchmark_loop files (i + 1) len
  ok ((file_name i, offsets) ∷ rest)

-- `partitionNum`
abbrev pub partition_num : ℕ
partition_num = 1024

pub benchmark_main : (ℕ → ℕ) → Outcome (List (Bytes × List ℕ))
unfolding benchmark_loop
benchmark_main len = benchmark_loop partition_num 0 len

-- The pages that cover each file, from file `i` on.
abbrev pub all_pages : ℕ → ℕ → (ℕ → ℕ) → List (Bytes × List ℕ)
all_pages zero i len = []
all_pages (suc files) i len =
    (file_name i, pages ((len i + 4095) / 4096) 0) ∷ all_pages files (i + 1) len

benchmark_loop-pages :
    (files i : ℕ) (len : ℕ → ℕ) → benchmark_loop files i len ≡ ok (all_pages files i len)
unfolding benchmark_loop
benchmark_loop-pages zero i len = refl
benchmark_loop-pages (suc files) i len =
    rw (pread_offsets-pages (len i), benchmark_loop-pages files (i + 1) len) refl

-- Whatever the lengths of the 1024 files, the benchmark ends, and reads the pages of each file, in
-- order from offset 0, as many as are needed to cover it and no more.
pub benchmark_main-pages : (len : ℕ → ℕ) → benchmark_main len ≡ ok (all_pages 1024 0 len)
unfolding benchmark_main
benchmark_main-pages len = benchmark_loop-pages 1024 0 len
