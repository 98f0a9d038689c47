-- ===== src/Chat/Client.antt =====
-- chat/ChatClient.cpp: lines from the standard input are framed and sent, and frames from the
-- server are read as messages.
pub mod Input
pub mod Pieces
pub mod Reads
pub mod Typed
use learnuv.Base.{
  ℕ, zero, suc, ◌+◌, ◌-◌, Bool, true, false, List, [], ◌∷◌, Bytes, length, take, drop, ltb, leb,
  if◌then◌else◌, out_of_range, out_of_fuel, Outcome, ok, fail, ◌>>=◌, ◌>>◌, require,
}
use learnuv.Base.Int.{ℤ, pos, negsuc}
use learnuv.Buffer.{Buffer, new, peek}
use learnuv.Codec.{Codec, new_codec, on_uv_read, encode}
use learnuv.Uv.{Nread, count, eof, error, c_string, check_uv, safe_malloc}

-- One `uv_write` to the server; `done` is what its `Stat` says.
pub record Sent : Type 0 where
  pub bytes : Bytes
  pub done : ℕ

-- The globals, and whether the standard input is closed.
pub record Client : Type 0 where
  pub codec : Codec
  pub buffer : Buffer
  pub seq : ℕ
  pub stdin_closed : Bool

abbrev pub start : Client
start = record { codec = new_codec; buffer = new 1024; seq = 0; stdin_closed = false }

-- `on_write_end(req, status)`
pub on_write_end : Client → ℤ → Client
on_write_end c (negsuc e) = c
on_write_end c (pos n) = record c { seq = c.seq + 1 }

-- `sendRawContent(buf, len, stream, done)`, with `char sendBuf[1024]`. The list is the memory at
-- `buf`.
pub send_raw_content : Bytes → ℕ → ℕ → Outcome Sent
send_raw_content mem len done = do
  require (leb len (length mem)) out_of_range
  require (leb len 1024) out_of_range
  ok (record { bytes = take len mem; done = done })

-- The loop of `test`, from index `i` on, over the memory at `buffer.peek()`; the fuel is for its
-- rounds.
pub test_loop : ℕ → Bytes → ℕ → ℕ → Outcome (List Sent)
unfolding send_raw_content
test_loop zero mem content_len i = if ltb i content_len then fail out_of_fuel else ok []
test_loop (suc fuel) mem content_len i =
    let round = (do
      s ←
          if ltb content_len (i + 2)
          then send_raw_content (drop i mem) (content_len - i) 1
          else send_raw_content (drop i mem) 2 0
      ss ← test_loop fuel mem content_len (i + 2)
      ok (s ∷ ss)) in
    if ltb i content_len then round else ok []

-- `test(msg, stream)`
pub test : Client → Bytes → Outcome (List Sent × Client)
unfolding test_loop
test c msg = do
  r ← encode c.buffer msg
  ss ← test_loop r.0 (peek r.1) r.0 0
  ok (ss, record c { buffer = r.1 })

-- `on_read_stdin`: only the end of the stream returns early. The list is the memory at `buf->base`.
pub on_read_stdin : Client → Nread → Bytes → Outcome (List Sent × Client)
unfolding send_raw_content
on_read_stdin c eof base = ok ([], c)
on_read_stdin c n base = do
  text ← c_string base
  r ← encode c.buffer text
  s ← send_raw_content (peek r.1) r.0 1
  ok (s ∷ [], record c { buffer = r.1 })

-- `on_read_tcp`, with the messages that it prints
pub on_read_tcp : Client → Nread → Bytes → Outcome (List Bytes × Client)
on_read_tcp c eof base = ok ([], record c { stdin_closed = true })
on_read_tcp c (error k) base = ok ([], c)
on_read_tcp c (count zero) base = ok ([], c)
on_read_tcp c (count (suc n)) base = do
  r ← on_uv_read c.codec (suc n) base
  ok (r.0, record c { codec = r.1 })

-- What the allocator and libuv answer to the calls of `on_connected`
pub record Setup : Type 0 where
  pub got : Bool
  pub opened : ℤ
  pub start_stdin : ℤ
  pub start_tcp : ℤ

-- `on_connected(req, status)`: whether the standard input and the connection are read from
pub on_connected : ℤ → Setup → Outcome Bool
on_connected (negsuc e) s = ok false
on_connected (pos n) s = do
  safe_malloc s.got
  check_uv s.opened
  check_uv s.start_stdin
  check_uv s.start_tcp
  ok true
