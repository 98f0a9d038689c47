-- ===== src/Pingpong/Client/Main.antt =====
-- How pingpong/client.cc starts.
use learnuv.Base.{
  ℕ, ◌+◌, ◌≡◌, refl, Bool, true, Option, none, some, List, [], ◌∷◌, Bytes, length, exited, Outcome,
  ok, fail, ◌>>=◌, ◌>>◌, zero, suc, ◌%◌, ap, ◌∙◌, arith, replicate, length-append, length-replicate,
}
use learnuv.Base.Int.{ℤ, pos, negsuc}
use learnuv.Buffer.Calls.{size}
use learnuv.Uv.{check_uv, safe_malloc}
use learnuv.Pingpong.Client.{Connection, Client, block, start, sum_read}

-- `connect()`, by what `uv_tcp_connect` and `uv_read_start` answer
pub connect : ℤ → ℤ → Outcome (Unit {0})
connect asked read_started = do check_uv asked; check_uv read_started

-- The last loop of `main`, with the answers for each connection
pub connect_all : (ℕ → ℤ) → (ℕ → ℤ) → ℕ → List Connection → Outcome (Unit {0})
unfolding connect
connect_all asked read_started i [] = ok tt
connect_all asked read_started i (x ∷ xs) = do
  connect (asked i) (read_started i)
  connect_all asked read_started (i + 1) xs

-- What libuv and the allocator answer to `main`
pub record MainSetup : Type 0 where
  pub timer_init : ℤ
  pub got : Bool
  pub timer_start : ℤ
  pub asked : ℕ → ℤ
  pub read_started : ℕ → ℤ

-- A size for `malloc`. As a `size_t` a negative one is close to 2 ^ 64, and `safe_malloc` exits.
pub size_for : ℤ → Outcome ℕ
size_for (pos n) = ok n
size_for (negsuc n) = fail exited

-- `main` up to `uv_run`, over the arguments behind the program's name; `none` where it returns 1
-- because there are too few of them. `atoi` is the C library's.
pub main : (Bytes → ℤ) → List Bytes → MainSetup → Outcome (Option Client)
unfolding connect_all size_for
main atoi (host ∷ port ∷ block_size ∷ session_number ∷ time ∷ more) s = do
  check_uv s.timer_init
  n ← size_for (atoi block_size)
  sessions ← size_for (atoi session_number)
  safe_malloc s.got
  check_uv s.timer_start
  let c = start n sessions
  connect_all s.asked s.read_started 0 c.connections
  ok (some c)
main atoi _ s = ok none

-- Nothing that `main` asks for fails.
pub record IsGranted (s : MainSetup) : Type 0 where
  pub inits : (n : ℕ) × (s.timer_init ≡ pos n)
  pub gets : s.got ≡ true
  pub starts : (n : ℕ) × (s.timer_start ≡ pos n)
  pub connects : (i : ℕ) → (n : ℕ) × (s.asked i ≡ pos n)
  pub reads : (i : ℕ) → (n : ℕ) × (s.read_started i ≡ pos n)

connect_all-ok :
    (s : MainSetup) (i : ℕ) (cs : List Connection)
    → IsGranted s
    → connect_all s.asked s.read_started i cs ≡ ok tt
unfolding connect_all connect
connect_all-ok s i [] h = refl
connect_all-ok s i (x ∷ xs) h =
    let (n, asks) = h.connects i in
    let (m, reads) = h.reads i in rw (asks, reads) (connect_all-ok s (i + 1) xs h)

length-block : (n : ℕ) → length (block n) ≡ n
unfolding block
length-block zero = refl
length-block (suc n) =
    length-append (block n) (n % 128 ∷ []) ∙ ap (λ k. k + 1) (length-block n) ∙ up n
  where
    up : (n : ℕ) → n + 1 ≡ suc n
    up n = omega arith

sum_read-start :
    (n k : ℕ) → sum_read (replicate k (record { bytes_read = 0; bytes_to_read = n })) ≡ 0
unfolding sum_read
sum_read-start n zero = refl
sum_read-start n (suc k) = omega (arith, sum_read-start n k)

-- With at least five arguments, of which the third and the fourth are numbers, and if nothing that
-- it asks for fails, the client starts with as many connections as the fourth says, none of which
-- has read a byte, and a block of as many bytes as the third says.
main_lem :
    (atoi : Bytes → ℤ) (host port block_size session_number time : Bytes) (more : List Bytes)
    (s : MainSetup) (n sessions : ℕ)
    → IsGranted s
    → atoi block_size ≡ pos n
    → atoi session_number ≡ pos sessions
    → (c : Client) × (main atoi (host ∷ port ∷ block_size ∷ session_number ∷ time ∷ more) s
        ≡ ok (some c))
      × (c.counter ≡ pos sessions)
      × (length c.connections ≡ sessions)
      × (sum_read c.connections ≡ 0)
      × (length c.client_buf ≡ n)
unfolding main size_for start
main_lem atoi host port block_size session_number time more s n sessions h size number =
    let (_, inits) = h.inits in
    let (_, starts) = h.starts in
    (
      start n sessions,
      rw (inits, size, number, h.gets, starts)
          (rw (connect_all-ok s 0 (start n sessions).connections h) refl),
      refl,
      length-replicate sessions (record { bytes_read = 0; bytes_to_read = n }),
      sum_read-start n sessions,
      length-block n,
    )
