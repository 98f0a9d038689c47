-- ===== src/Readers/Main.antt =====
-- The `main` functions of the file readers. What the calls of libuv and of the kernel answer is an
-- argument, and so is `atoi`.
use learnuv.Base.{
  ℕ, ◌^◌, ◌<◌, ◌≡◌, ◌≢◌, refl, ap, ◌⊎◌, Bool, true, false, List, [], ◌∷◌, arith, Bytes, length,
  exited, Outcome, ok, fail, ◌>>=◌, ◌>>◌, suc, ◌+◌, ◌-◌, ◌%◌,
}
use learnuv.Base.Int.{ℤ, pos, negsuc, ltb_ℤ}
use learnuv.Uv.{check_uv}
use learnuv.Readers.{Progress, finished, failed, on_file_open, run_reads, sync_loop, system_loop}
use learnuv.Readers.Totals.{results, total, readers_lem}

-- `BUF_SIZE`
abbrev pub default_size : ℕ
default_size = 4096

-- The arguments behind the program's name: the file, and the size of the buffer, which only decides
-- what the reads can return.
pub buf_size_of : (Bytes → ℤ) → List Bytes → Outcome ℤ
buf_size_of atoi (path ∷ []) = ok (pos default_size)
buf_size_of atoi (path ∷ size ∷ []) = ok (atoi size)
buf_size_of atoi _ = fail exited

-- libuv_readfile.cpp: `submitted` is what `uv_fs_open` returns, `opened` the result of its request.
pub readfile_main : (Bytes → ℤ) → List Bytes → ℤ → ℤ → List ℤ → Outcome Progress
unfolding buf_size_of run_reads on_file_open
readfile_main atoi args submitted opened results = do
  _size ← buf_size_of atoi args
  check_uv submitted
  ok (run_reads (on_file_open opened) results)

-- libuv_readfile_sync.cpp: `uv_fs_open` without a callback returns the descriptor, or the error.
pub readfile_sync_main : (Bytes → ℤ) → List Bytes → ℤ → List ℤ → Outcome Progress
unfolding buf_size_of sync_loop
readfile_sync_main atoi args opened results = do
  _size ← buf_size_of atoi args
  check_uv opened
  ok (sync_loop 0 results)

-- system_read.cpp: whether it prints that the file was not opened, and the count. It reads in both
-- cases.
pub system_read_main : (Bytes → ℤ) → List Bytes → ℤ → List ℤ → Outcome (Bool × Progress)
unfolding buf_size_of system_loop
system_read_main atoi args opened results = do
  _size ← buf_size_of atoi args
  p ← system_loop 0 results
  ok (ltb_ℤ opened (pos 0), p)

opened_lem : (fd : ℕ) → ltb_ℤ (pos fd) (pos 0) ≡ false
opened_lem fd = ground arith

unopened_lem : (e : ℕ) → ltb_ℤ (negsuc e) (pos 0) ≡ true
unopened_lem e = ground arith

sized_lem :
    (atoi : Bytes → ℤ) (args : List Bytes)
    → (length args ≡ 1) ⊎ (length args ≡ 2)
    → (size : ℤ) × (buf_size_of atoi args ≡ ok size)
unfolding buf_size_of
sized_lem atoi [] h = absurd (ground arith)
sized_lem atoi (path ∷ []) h = (pos default_size, refl)
sized_lem atoi (path ∷ size ∷ []) h = (atoi size, refl)
sized_lem atoi (path ∷ size ∷ other ∷ args) h = absurd (ground arith)

unsized_lem :
    (atoi : Bytes → ℤ) (args : List Bytes)
    → length args ≢ 1
    → length args ≢ 2
    → buf_size_of atoi args ≡ fail exited
unfolding buf_size_of
unsized_lem atoi [] h k = refl
unsized_lem atoi (path ∷ []) h k = absurd (h refl)
unsized_lem atoi (path ∷ size ∷ []) h k = absurd (k refl)
unsized_lem atoi (path ∷ size ∷ other ∷ args) h k = refl

-- With a file and at most a size as arguments, and reads that return fewer than 2 ^ 31 bytes in
-- all, the three readers print the number of the bytes that were read up to the end of the file,
-- however the reads are cut. At a read error the first prints an error and no count, the second the
-- number of bytes read less the error's code, as an unsigned number of 64 bits, and the third the
-- number of bytes read. A file that cannot be opened makes the first print an error, ends the
-- second, and makes the third, whose read then fails, print a message and a count of 0. With any
-- other number of arguments they exit.
pub readers_main_lem :
    (atoi : Bytes → ℤ) (args others : List Bytes) (fd : ℕ) (ns : List ℕ) (e k : ℕ)
    → (length args ≡ 1) ⊎ (length args ≡ 2)
    → length others ≢ 1
    → length others ≢ 2
    → total ns < 2 ^ 31
    → (readfile_main atoi args (pos 0) (pos fd) (results ns (pos 0)) ≡ ok (finished (total ns)))
      × (readfile_sync_main atoi args (pos fd) (results ns (pos 0)) ≡ ok (finished (total ns)))
      × (system_read_main atoi args (pos fd) (results ns (pos 0)) ≡ ok (false, finished (total ns)))
      × (readfile_main atoi args (pos 0) (pos fd) (results ns (negsuc e)) ≡ ok failed)
      × (readfile_sync_main atoi args (pos fd) (results ns (negsuc e))
          ≡ ok (finished ((total ns + 2 ^ 64 - suc e) % 2 ^ 64)))
      × (system_read_main atoi args (pos fd) (results ns (negsuc e))
          ≡ ok (false, finished (total ns)))
      × (readfile_main atoi args (pos 0) (negsuc e) [] ≡ ok failed)
      × (readfile_sync_main atoi args (negsuc e) [] ≡ fail exited)
      × (system_read_main atoi args (negsuc e) (negsuc k ∷ []) ≡ ok (true, finished 0))
      × (readfile_main atoi others (pos 0) (pos fd) [] ≡ fail exited)
      × (readfile_sync_main atoi others (pos fd) [] ≡ fail exited)
      × (system_read_main atoi others (pos fd) [] ≡ fail exited)
unfolding readfile_main readfile_sync_main system_read_main
readers_main_lem atoi args others fd ns e k one_or_two not_one not_two small =
    let (size, sized) = sized_lem atoi args one_or_two in
    let unsized = unsized_lem atoi others not_one not_two in
    let (a, b, c, x, y, z) = readers_lem fd ns e small in
    (
      rw sized (ap ok a),
      rw sized (ap ok b),
      rw sized (rw (c, opened_lem fd) refl),
      rw sized (ap ok x),
      rw sized (ap ok y),
      rw sized (rw (z, opened_lem fd) refl),
      rw sized refl,
      rw sized refl,
      rw (sized, unopened_lem e) refl,
      rw unsized refl,
      rw unsized refl,
      rw unsized refl,
    )
