-- ===== src/Chargen.antt =====
-- simple/chargen.cpp: every client is sent the same text again and again, and counters say how
-- much. A connection is known by the index of its `stats` object, which are kept in the order of
-- `malloc`.
pub mod Counts
pub mod Service
mod Tests
use learnuv.Base.{
  ℕ, zero, suc, Bool, Option, none, some, List, [], ◌∷◌, ◌++◌, Bytes, codes, length, take,
  replicate, overwrite, ltb, if◌then◌else◌, assertion, out_of_range, use_after_free, Outcome, ok,
  fail, ◌>>=◌, ◌>>◌, require, exited,
}
use learnuv.Base.Word.{add_size, sub_size}
use learnuv.Base.Int.{ℤ, pos, negsuc}
use learnuv.Uv.{check_uv, safe_malloc, Host, Begun, after_listen}

-- `BUFSIZE`
abbrev pub buf_size : ℕ
buf_size = 4096

-- `message`
abbrev pub message : Bytes
message = codes "hello world\n"

-- `sizeof(message)`, the size of a pointer
abbrev pub message_size : ℕ
message_size = 8

-- `stats`; both are `uint64_t`.
pub record Stats : Type 0 where
  pub start : ℕ
  pub transfered : ℕ

-- The globals, and the `stats` objects, with `none` for one that was freed.
pub record Chargen : Type 0 where
  pub global_buf : Bytes
  pub transfered : ℕ
  pub ts : ℕ
  pub stats : List (Option Stats)

-- What the program does: a `uv_write`, or the line of `on_timeout`, with the bytes that were
-- transfered and the nanoseconds that it took.
pub data Output : Type 0 where
  wrote : ℕ → Bytes → Output
  rate : ℕ → ℕ → Output

-- The globals before the loop runs; `globalBuf` is zero.
abbrev pub begin : ℕ → Chargen
begin now = record { global_buf = replicate buf_size 0; transfered = 0; ts = now; stats = [] }

-- `strcpy(globalBuf, message)`
pub fill : Chargen → Outcome Chargen
fill s = do
  require (ltb (length message) (length s.global_buf)) out_of_range
  ok (record s { global_buf = overwrite 0 (message ++ 0 ∷ []) s.global_buf })

-- The object behind `req->data`
unfoldable pub find : List (Option Stats) → ℕ → Outcome Stats
find [] i = fail assertion
find (none ∷ os) zero = fail use_after_free
find (some st ∷ os) zero = ok st
find (o ∷ os) (suc i) = find os i

pub put : List (Option Stats) → ℕ → Option Stats → List (Option Stats)
put [] i new = []
put (o ∷ os) zero new = new ∷ os
put (o ∷ os) (suc i) new = o ∷ put os i new

-- `free(req->data)`, if the write failed
pub freed_on_error : Chargen → ℕ → ℤ → Chargen
unfolding put
freed_on_error s i (pos n) = s
freed_on_error s i (negsuc e) = record s { stats = put s.stats i none }

-- `on_write_end(req, status)`: after an error, the object is freed, and then the handler goes on.
pub on_write_end : Chargen → ℕ → ℤ → Outcome (List Output × Chargen)
unfolding fill find put freed_on_error
on_write_end s i status = do
  _stat ← find s.stats i
  s₂ ← fill (freed_on_error s i status)
  st ← find s₂.stats i
  let st' = record st { transfered = add_size st.transfered message_size }
  ok (
    wrote i (take message_size s₂.global_buf) ∷ [],
    record s₂ {
      stats = put s₂.stats i (some st');
      transfered = add_size s₂.transfered message_size;
    },
  )

-- What libuv and the allocator answer to `on_new_connection`
pub record Accept : Type 0 where
  pub got : Bool
  pub accepted : ℤ
  pub peer : ℤ
  pub is_inet : Bool
  pub name : ℤ
  pub now : ℕ

-- `on_new_connection(server, status)`
pub on_new_connection : Chargen → ℤ → Accept → Outcome (List Output × Chargen)
unfolding fill
on_new_connection s (negsuc e) a = ok ([], s)
on_new_connection s (pos n) a = do
  safe_malloc a.got
  check_uv a.accepted
  check_uv a.peer
  if a.is_inet then check_uv a.name else ok tt
  s' ← fill s
  ok (
    wrote (length s'.stats) (take message_size s'.global_buf) ∷ [],
    record s' { stats = s'.stats ++ some (record { start = a.now; transfered = 0 }) ∷ [] },
  )

-- `on_timeout(timer)`
pub on_timeout : Chargen → ℕ → List Output × Chargen
on_timeout s now =
    (rate s.transfered (sub_size now s.ts) ∷ [], record s { ts = now; transfered = 0 })

pub data Event : Type 0 where
  write_ended : ℕ → ℤ → Event
  connection : ℤ → Accept → Event
  timeout : ℕ → Event

pub step : Chargen → Event → Outcome (List Output × Chargen)
unfolding on_write_end on_new_connection on_timeout
step s (write_ended i status) = on_write_end s i status
step s (connection status a) = on_new_connection s status a
step s (timeout now) = ok (on_timeout s now)

pub run : Chargen → List Event → Outcome (List Output × Chargen)
unfolding step
run s [] = ok ([], s)
run s (e ∷ es) = do r ← step s e; r' ← run r.1 es; ok (r.0 ++ r'.0, r'.1)

-- `main`, into the loop, over the arguments behind the program's name; `now` is the clock at the
-- start of the program. The answer of `uv_tcp_bind` is not looked at.
unfoldable pub main : List Bytes → ℕ → Host → Outcome (Begun Chargen)
main (port ∷ []) now h = do
  safe_malloc h.got
  check_uv h.listen
  safe_malloc h.got_again
  check_uv h.timer_start
  ok (after_listen h.listen (begin now))
main _ now h = fail exited
