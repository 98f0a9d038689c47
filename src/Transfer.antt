-- ===== src/Transfer.antt =====
-- simple/filetransfer.cpp: each client is sent a file. The callbacks of one connection form a
-- chain, in which each one asks libuv for the next thing, if for any; what libuv answers is an
-- argument.
pub mod Whole
pub mod Shared
mod Tests
use learnuv.Base.{
  ℕ, zero, suc, Bool, Option, none, some, List, [], ◌∷◌, ◌++◌, Bytes, take, overwrite, ltb,
  out_of_range, Outcome, ok, ◌>>=◌, ◌>>◌, require, exited, fail,
}
use learnuv.Base.Int.{ℤ, pos, negsuc}
use learnuv.Uv.{check_uv, safe_malloc, Host, Begun, after_listen}

-- `FILE_BUF`
abbrev pub file_buf : ℕ
file_buf = 8192

-- The request that a connection waits for. `stopped`: nothing is asked for any more, and the
-- connection, its file or its memory is kept. `cleaned`: the file and the connection were closed,
-- and the context was freed (the memory of the handle and of the requests is not).
pub data Pending : Type 0 where
  opening reading writing shutting_down closing_file closing_tcp stopped cleaned : Pending

-- A connection, the memory of the global `buffer`, and the bytes given to `uv_write` so far.
pub record Transfer : Type 0 where
  pub pending : Pending
  pub buffer : Bytes
  pub sent : Bytes

-- The answer to a request: its status or result, and the bytes that a read puts into the buffer.
pub record Answer : Type 0 where
  pub result : ℤ
  pub bytes : Bytes

-- `on_new_connection`, by its status, what `malloc` and `uv_accept` answer, and whether libuv takes
-- the request to open the file
pub on_new_connection : Bytes → ℤ → Bool → ℤ → ℤ → Outcome (Option Transfer)
on_new_connection memory (negsuc e) got accepted asked = ok none
on_new_connection memory (pos n) got accepted asked = do
  safe_malloc got
  check_uv accepted
  check_uv asked
  ok (some (record { pending = opening; buffer = memory; sent = [] }))

-- `on_file_open`; without a file, the context is freed and the connection stays open.
pub on_file_open : Transfer → ℤ → Transfer
on_file_open t (pos fd) = record t { pending = reading }
on_file_open t (negsuc e) = record t { pending = stopped }

-- `on_read`, with `char tBuf[FILE_BUF]`: the bytes and a zero byte behind them are sent.
pub on_read : Transfer → ℤ → Outcome Transfer
on_read t (negsuc e) = ok (record t { pending = stopped })
on_read t (pos zero) = ok (record t { pending = shutting_down })
on_read t (pos (suc n)) = do
  require (ltb (suc n) file_buf) out_of_range
  ok (record t { pending = writing; sent = t.sent ++ (take (suc n) t.buffer ++ 0 ∷ []) })

-- `on_write_end`
pub on_write_end : Transfer → ℤ → Transfer
on_write_end t (pos n) = record t { pending = reading }
on_write_end t (negsuc e) = record t { pending = stopped }

-- `on_shutdown`
pub on_shutdown : Transfer → ℤ → Transfer
on_shutdown t (pos n) = record t { pending = closing_file }
on_shutdown t (negsuc e) = record t { pending = stopped }

-- `on_fs_close`, which does not look at the result
pub on_fs_close : Transfer → Transfer
on_fs_close t = record t { pending = closing_tcp }

-- `on_tcp_close`
pub on_tcp_close : Transfer → Transfer
on_tcp_close t = record t { pending = cleaned }

-- The callback of the request that is pending.
pub callback : Transfer → Pending → Answer → Outcome Transfer
unfolding on_file_open on_read on_write_end on_shutdown on_fs_close on_tcp_close
callback t opening a = ok (on_file_open t a.result)
callback t reading a = on_read (record t { buffer = overwrite 0 a.bytes t.buffer }) a.result
callback t writing a = ok (on_write_end t a.result)
callback t shutting_down a = ok (on_shutdown t a.result)
callback t closing_file a = ok (on_fs_close t)
callback t closing_tcp a = ok (on_tcp_close t)
callback t _ a = ok t

pub run : Transfer → List Answer → Outcome Transfer
unfolding callback
run t [] = ok t
run t (a ∷ rest) = do t' ← callback t t.pending a; run t' rest

-- `main`, into the loop, over the arguments behind the program's name: the name of the file.
unfoldable pub main : List Bytes → Host → Outcome (Begun Bytes)
main (port ∷ file ∷ []) h = do
  safe_malloc h.got
  check_uv h.init
  check_uv h.bind
  check_uv h.listen
  ok (after_listen h.listen file)
main _ h = fail exited
