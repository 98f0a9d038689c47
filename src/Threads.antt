-- ===== src/Threads.antt =====
-- multi_thread_tcp_server_exp/multi_thread_server.cpp: each connection gets a thread with a loop of
-- its own, and the callback that starts the thread joins it before it returns.
pub mod Answers
mod Tests
use learnuv.Base.{
  ℕ, List, [], ◌∷◌, ◌++◌, Bytes, length, replicate, overwrite, if◌then◌else◌, Outcome, ok, ◌>>=◌,
  ◌>>◌,
}
use learnuv.Base.Int.{ℤ, pos, ltb_ℤ}
use learnuv.Uv.{Nread, count, eof, error, c_string, Host, Begun, after_listen}

-- `sizeof(globalBuf)`
abbrev pub global_buf_size : ℕ
global_buf_size = 8192

-- How the reads of a connection end.
pub data Ending : Type 0 where
  end_of_stream : Ending
  read_error : ℕ → Ending

abbrev pub ending_nread : Ending → Nread
ending_nread end_of_stream = eof
ending_nread (read_error k) = error k

-- The read callback of a thread's loop, with what stands in `globalBuf`, the buffer that every read
-- is given: it is printed as a C string, and all of it is written. The result is what is written.
pub on_read : Nread → Bytes → Outcome (List Bytes)
on_read (count n) global_buf = do _printed ← c_string global_buf; ok (global_buf ∷ [])
on_read _ global_buf = ok []

-- `uv_run(loop1, UV_RUN_DEFAULT)` of a thread, over the bytes of each read; the loop ends with the
-- reads, since libuv reads no more after an end or an error. The result is what is written, and
-- `globalBuf`.
pub child_loop : Bytes → List Bytes → Ending → Outcome (List Bytes × Bytes)
unfolding on_read
child_loop global_buf [] ending = do
  answers ← on_read (ending_nread ending) global_buf
  ok (answers, global_buf)
child_loop global_buf (x ∷ xs) ending = do
  let filled = overwrite 0 x global_buf
  answers ← on_read (count (length x)) filled
  r ← child_loop filled xs ending
  ok (answers ++ r.0, r.1)

-- A call of `on_new_connection`: its status, what `uv_accept` answers, and what the connection then
-- delivers.
pub record Incoming : Type 0 where
  pub status : ℤ
  pub accepted : ℤ
  pub reads : List Bytes
  pub ending : Ending

-- `on_new_connection(server, status)`, which ends when its thread does.
pub on_new_connection : Incoming → Bytes → Outcome (List Bytes × Bytes)
unfolding child_loop
on_new_connection c global_buf =
    if ltb_ℤ c.status (pos 0)
    then ok ([], global_buf)
    else if ltb_ℤ c.accepted (pos 0)
    then ok ([], global_buf)
    else child_loop global_buf c.reads c.ending

-- The main loop from a state of `globalBuf`: the answers to each connection.
pub main_loop : Bytes → List Incoming → Outcome (List (List Bytes))
unfolding on_new_connection
main_loop global_buf [] = ok []
main_loop global_buf (c ∷ cs) = do
  r ← on_new_connection c global_buf
  rest ← main_loop r.1 cs
  ok (r.0 ∷ rest)

-- `main`: globals start with zero bytes.
pub main : List Incoming → Outcome (List (List Bytes))
unfolding main_loop
main cs = main_loop (replicate global_buf_size 0) cs

-- `main`, into the loop: no answer is looked at.
unfoldable pub begin : Host → Begun Bytes
begin h = after_listen h.listen (replicate global_buf_size 0)
