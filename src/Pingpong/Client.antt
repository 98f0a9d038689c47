-- ===== src/Pingpong/Client.antt =====
-- pingpong/client.cc.
pub mod Answers
pub mod Main
use learnuv.Base.{
  ℕ, zero, suc, ◌+◌, ◌%◌, Bool, true, false, List, [], ◌∷◌, ◌++◌, Bytes, replicate, if◌then◌else◌,
  Outcome, ok, ◌>>=◌, ◌>>◌,
}
use learnuv.Base.Int.{ℤ, pos, negsuc}
use learnuv.Uv.{Nread, count, check_uv}

-- `Connection`, by the two fields that change or are printed
pub record Connection : Type 0 where
  pub bytes_read : ℕ
  pub bytes_to_read : ℕ

-- The globals
pub record Client : Type 0 where
  pub counter : ℤ
  pub failed : ℕ
  pub connections : List Connection
  pub client_buf : Bytes

-- What a callback asks of libuv, or prints.
pub data Action : Type 0 where
  posted : Bytes → Action
  closed : Action
  shut : ℕ → Action
  total : ℕ → Action

-- The block of `main`: `base[i] = i % 128`
pub block : ℕ → Bytes
block zero = []
block (suc n) = block n ++ n % 128 ∷ []

-- `main` before the loop runs
pub start : ℕ → ℕ → Client
unfolding block
start block_size sessions = record {
  counter = pos sessions;
  failed = 0;
  connections = replicate sessions (record { bytes_read = 0; bytes_to_read = block_size });
  client_buf = block block_size;
}

-- `counter -= 1`
pub one_less : ℤ → ℤ
one_less (pos zero) = negsuc 0
one_less (pos (suc n)) = pos n
one_less (negsuc n) = negsuc (suc n)

-- `onConnect(req, status)`; the second number is what `uv_write` answers.
pub on_connect : Client → ℤ → ℤ → Outcome (List Action × Client)
unfolding one_less
on_connect c (negsuc e) asked =
    ok ([], record c { counter = one_less c.counter; failed = c.failed + 1 })
on_connect c (pos n) asked = do check_uv asked; ok (posted c.client_buf ∷ [], c)

-- `stream->data`, the connection behind the stream
pub add_read : List Connection → ℕ → ℕ → List Connection
add_read [] i n = []
add_read (x ∷ xs) zero n = record x { bytes_read = x.bytes_read + n } ∷ xs
add_read (x ∷ xs) (suc i) n = x ∷ add_read xs i n

-- `onReadData(stream, nread, buf)`: `buf` is the whole of the memory that was allocated, and is
-- written back as it is.
pub on_read_data : Client → ℕ → Nread → Bytes → ℤ → Outcome (List Action × Client)
unfolding add_read
on_read_data c i (count zero) buf asked = ok ([], c)
on_read_data c i (count (suc n)) buf asked = do
  let c' = record c { connections = add_read c.connections i (suc n) }
  check_uv asked
  ok (posted buf ∷ [], c')
on_read_data c i _ buf asked = ok (closed ∷ [], c)

-- `disconnect()` of all connections; `answer` is what `uv_shutdown` answers for each.
pub disconnect_all : (ℕ → ℤ) → ℕ → List Connection → Outcome (List Action)
disconnect_all answer i [] = ok []
disconnect_all answer i (x ∷ xs) = do
  check_uv (answer i)
  rest ← disconnect_all answer (i + 1) xs
  ok (shut i ∷ rest)

pub sum_read : List Connection → ℕ
sum_read [] = 0
sum_read (x ∷ xs) = x.bytes_read + sum_read xs

abbrev is_zero : ℤ → Bool
is_zero (pos zero) = true
is_zero _ = false

-- `onTimeout(handle)`
pub on_timeout : Client → (ℕ → ℤ) → Outcome (List Action)
unfolding disconnect_all sum_read
on_timeout c answer = do
  ds ← disconnect_all answer 0 c.connections
  ok (if is_zero c.counter then ds else ds ++ total (sum_read c.connections) ∷ [])
