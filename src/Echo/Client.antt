-- ===== src/Echo/Client.antt =====
-- echo/echo_client.cpp. A callback returns what it asks of libuv, in order; the bytes of a write
-- are those in its buffer when it is asked for.
pub mod Relay
use learnuv.Base.{
  zero, suc, Bool, true, false, List, [], ◌∷◌, ◌++◌, Bytes, take, if◌then◌else◌, exited, Outcome,
  ok, fail, ◌>>=◌, ◌>>◌,
}
use learnuv.Base.Int.{ℤ, pos, negsuc}
use learnuv.Uv.{Nread, count, check_uv, safe_malloc, Host}

-- The three streams
pub data Stream : Type 0 where
  connection pipe_stdin pipe_stdout : Stream

pub data Action : Type 0 where
  write : Stream → Bytes → Action
  close : Stream → Action
  read_start : Stream → Action

-- What libuv answers to the calls of `on_connect` that are checked, and the allocator to
-- `safe_malloc`
pub record Setup : Type 0 where
  pub got_stdout : Bool
  pub init_stdout : ℤ
  pub open_stdout : ℤ
  pub got_stdin : Bool
  pub init_stdin : ℤ
  pub open_stdin : ℤ
  pub start_stdin : ℤ

-- `on_connect(req, status)`
pub on_connect : ℤ → Setup → Outcome (List Action)
on_connect (negsuc e) s = fail exited
on_connect (pos n) s = do
  safe_malloc s.got_stdout
  check_uv s.init_stdout
  check_uv s.open_stdout
  safe_malloc s.got_stdin
  check_uv s.init_stdin
  check_uv s.open_stdin
  check_uv s.start_stdin
  ok (read_start connection ∷ read_start pipe_stdin ∷ [])

-- `on_read_connection(stream, nread, buf)`, with the memory at `buf->base`, and whether `malloc`
-- gives the request
pub on_read_connection : Nread → Bytes → Bool → Outcome (List Action)
on_read_connection (count zero) base got = ok []
on_read_connection (count (suc n)) base got = do
  safe_malloc got
  ok (write pipe_stdout (take (suc n) base) ∷ [])
on_read_connection _ base got = ok (close connection ∷ close pipe_stdout ∷ close pipe_stdin ∷ [])

-- `on_read_stdin(stream, nread, buf)`; a count of 0 is written like any other.
pub on_read_stdin : Nread → Bytes → Bool → Outcome (List Action)
on_read_stdin (count n) base got = do safe_malloc got; ok (write connection (take n base) ∷ [])
on_read_stdin _ base got = ok (close pipe_stdin ∷ close connection ∷ close pipe_stdout ∷ [])

-- A read that libuv reports: on the connection, or on the standard input
pub data Arrival : Type 0 where
  from_server : Nread → Bytes → Arrival
  from_terminal : Nread → Bytes → Arrival

pub on_arrival : Arrival → Outcome (List Action)
unfolding on_read_connection on_read_stdin
on_arrival (from_server nread base) = on_read_connection nread base true
on_arrival (from_terminal nread base) = on_read_stdin nread base true

-- Reads in order. After `uv_close`, libuv calls back for none of the three streams, and all three
-- are closed together.
abbrev pub is_end : Nread → Bool
is_end (count n) = false
is_end _ = true

abbrev pub ends : Arrival → Bool
ends (from_server nread base) = is_end nread
ends (from_terminal nread base) = is_end nread

pub run : List Arrival → Outcome (List Action)
unfolding on_arrival
run [] = ok []
run (a ∷ rest) =
    let later = run rest in
    if ends a then on_arrival a else (do x ← on_arrival a; y ← later; ok (x ++ y))

-- `main`, into the loop, over the arguments behind the program's name. The answer of
-- `uv_tcp_connect` is not looked at.
unfoldable pub main : List Bytes → Host → Outcome (Unit {0})
main (host ∷ port ∷ []) h = do safe_malloc h.got; check_uv h.init; safe_malloc h.got_again
main _ h = fail exited
