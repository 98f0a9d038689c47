-- ===== src/Chat/Server.antt =====
-- chat/ChatServer.cpp and chat/connection.h. A connection is known by its id, since `connections`
-- counts up; a handler returns the new state and the writes that it asks libuv for.
pub mod Broadcast
pub mod Input
pub mod Arrivals
pub mod History
pub mod Recipients
pub mod Growth
pub mod Sent
pub mod Safety
pub mod Lifetime
mod Tests
use learnuv.Base.{
  ℕ, zero, suc, ◌+◌, Bool, List, [], ◌∷◌, ◌++◌, Bytes, length, take, leb, ◌==◌, if◌then◌else◌,
  out_of_range, Outcome, ok, require, ◌>>=◌, ◌>>◌, ◌^◌, ◌<◌, ◌≡◌,
}
use learnuv.Base.Int.{ℤ, pos, negsuc}
use learnuv.Buffer.{Buffer, new, peek}
use learnuv.Codec.{Codec, new_codec, on_uv_read, encode}
use learnuv.Uv.{
  Nread, count, eof, error, nread_size, check_uv, safe_malloc, c_string, Host, Begun, after_listen,
}

-- `uv_write` to the client of a connection
pub record Write : Type 0 where
  pub conn : ℕ
  pub bytes : Bytes

-- The globals. One codec serves all connections.
pub record Server : Type 0 where
  pub conns : List ℕ
  pub codec : Codec
  pub buf : Buffer
  pub connections : ℕ

-- `main`, before the loop runs
abbrev pub start : Server
start = record { conns = []; codec = new_codec; buf = new 1024; connections = 0 }

-- `Connection::send(buf, len)`, with `char sendBuf[8192]`. The list is the memory at `buf`.
pub send : ℕ → Bytes → ℕ → Outcome Write
send conn mem len = do
  require (leb len (length mem)) out_of_range
  require (leb len 8192) out_of_range
  ok (record { conn = conn; bytes = take len mem })

-- `for (auto conn : conns) conn->send(buf.peek(), len)`
pub send_all : List ℕ → Bytes → ℕ → Outcome (List Write)
unfolding send
send_all [] mem len = ok []
send_all (c ∷ cs) mem len = do w ← send c mem len; ws ← send_all cs mem len; ok (w ∷ ws)

-- `onStringMessageBack(msg)`
pub on_string_message_back : Server → Bytes → Outcome (List Write × Server)
on_string_message_back s msg = do
  text ← c_string (msg ++ 0 ∷ [])
  r ← encode s.buf text
  ws ← send_all s.conns (peek r.1) r.0
  ok (ws, record s { buf = r.1 })

-- The callbacks of one `onMessage`, in order.
pub deliver : Server → List Bytes → Outcome (List Write × Server)
unfolding on_string_message_back
deliver s [] = ok ([], s)
deliver s (m ∷ ms) = do r ← on_string_message_back s m; r' ← deliver r.1 ms; ok (r.0 ++ r'.0, r'.1)

-- `codec->on_uv_read(nread, buf)`, the callbacks included
pub read_bytes : Server → ℕ → Bytes → Outcome (List Write × Server)
unfolding deliver
read_bytes s nread base = do
  r ← on_uv_read s.codec nread base
  deliver (record s { codec = r.1 }) r.0

-- `conns.erase(it)` at the first `it` that is the connection
pub erase : ℕ → List ℕ → List ℕ
erase c [] = []
erase c (d ∷ ds) = if d == c then ds else d ∷ erase c ds

-- `on_read`: an error other than the end of the stream is logged, and then read as a count.
pub on_read : Server → ℕ → Nread → Bytes → Outcome (List Write × Server)
unfolding erase read_bytes
on_read s conn eof base = ok ([], record s { conns = erase conn s.conns })
on_read s conn (error k) base = read_bytes s (nread_size k) base
on_read s conn (count zero) base = ok ([], s)
on_read s conn (count (suc n)) base = read_bytes s (suc n) base

-- `on_connection(server, status)`; `got` and `accepted` are what `malloc` and `uv_accept` answer.
unfoldable pub on_connection : Server → ℤ → Bool → ℤ → Outcome Server
on_connection s (negsuc e) got accepted = ok s
on_connection s (pos e) got accepted = do
  safe_malloc got
  let s' = record s { conns = s.conns ++ s.connections ∷ []; connections = s.connections + 1 }
  check_uv accepted
  ok s'

-- What libuv reports to the server.
pub data Event : Type 0 where
  connects : ℤ → Bool → ℤ → Event
  arrives : ℕ → Bytes → Event
  ends : ℕ → Event
  breaks : ℕ → ℕ → Bytes → Event

pub handle : Server → Event → Outcome (List Write × Server)
unfolding on_connection on_read
handle s (connects status got accepted) = do t ← on_connection s status got accepted; ok ([], t)
handle s (arrives conn x) = on_read s conn (count (length x)) x
handle s (ends conn) = on_read s conn eof []
handle s (breaks conn k base) = on_read s conn (error k) base

-- A read brings less than 2 ^ 32 bytes, an error number is an `int`, and the buffer of a failed
-- read is no longer.
abbrev pub IsSound : Event → Type 0
IsSound (connects status got accepted) = Unit {0}
IsSound (arrives conn x) = length x < 2 ^ 32
IsSound (ends conn) = Unit {0}
IsSound (breaks conn k base) = (k < 2 ^ 31) × (length base < 2 ^ 32)

-- From the state before the loop runs, by events whose handlers return.
pub data Reached : Server → Type 0 where
  started : Reached start
  next :
      {s t : Server} (e : Event) (ws : List Write)
      → Reached s
      → IsSound e
      → handle s e ≡ ok (ws, t)
      → Reached t

-- `main`, into the loop: no answer is looked at.
unfoldable pub main : Host → Begun Server
main h = after_listen h.listen start
