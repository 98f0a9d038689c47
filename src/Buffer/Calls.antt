-- ===== src/Buffer/Calls.antt =====
-- What a client of the buffer can call, and the same calls on a queue of bytes.
pub mod Refine
use learnuv.Base.{
  ℕ, ◌+◌, Option, none, some, List, [], ◌∷◌, ◌++◌, Bytes, length, take, drop, leb, if◌then◌else◌,
  Outcome, ok, ◌>>=◌, ◌>>◌,
}
use learnuv.Base.Word.{be32, be32_value}
use learnuv.Buffer.{
  Buffer, retrieve_all, retrieve, retrieve_as_string, append, peek_uint32, retrieve_uint32,
  read_uint32, write_uint32,
}

-- The public methods that read or change the bytes: `append`, `retrieve`, `retrieveAll`,
-- `retrieveAsString`, `writeUInt32`, `readUInt32`, `peekUInt32` and `retrieveUInt32`
pub data Call : Type 0 where
  put : Bytes → Call
  drop_front : ℕ → Call
  clear : Call
  take_front : ℕ → Call
  put_word : ℕ → Call
  take_word : Call
  look_at_word : Call
  drop_word : Call

pub data Answer : Type 0 where
  done : Answer
  text : Bytes → Answer
  word : ℕ → Answer

abbrev answered : Answer → Outcome Buffer → Outcome (Answer × Buffer)
answered a o = do b ← o; ok (a, b)

pub call : Buffer → Call → Outcome (Answer × Buffer)
unfolding retrieve_all
call b (put x) = answered done (append b x (length x))
call b (drop_front n) = answered done (retrieve b n)
call b clear = ok (done, retrieve_all b)
call b (take_front n) = do r ← retrieve_as_string b n; ok (text r.0, r.1)
call b (put_word u) = answered done (write_uint32 b u)
call b take_word = do r ← read_uint32 b; ok (word r.0, r.1)
call b look_at_word = do u ← peek_uint32 b; ok (word u, b)
call b drop_word = answered done (retrieve_uint32 b)

pub calls : Buffer → List Call → Outcome (List Answer × Buffer)
unfolding call
calls b [] = ok ([], b)
calls b (k ∷ ks) = do r ← call b k; r' ← calls r.1 ks; ok (r.0 ∷ r'.0, r'.1)

-- The same calls on a queue of bytes; `none` where there are too few.
abbrev pub at_least : ℕ → Bytes → Answer → Bytes → Option (Answer × Bytes)
at_least n q a rest = if leb n (length q) then some (a, rest) else none

abbrev pub queue : Bytes → Call → Option (Answer × Bytes)
queue q (put x) = some (done, q ++ x)
queue q (drop_front n) = at_least n q done (drop n q)
queue q clear = some (done, [])
queue q (take_front n) = at_least n q (text (take n q)) (drop n q)
queue q (put_word u) = some (done, q ++ be32 u)
queue q take_word = at_least 4 q (word (be32_value q)) (drop 4 q)
queue q look_at_word = at_least 4 q (word (be32_value q)) q
queue q drop_word = at_least 4 q done (drop 4 q)

abbrev pub prepend_answer : Answer → Option (List Answer × Bytes) → Option (List Answer × Bytes)
prepend_answer a none = none
prepend_answer a (some (as', q)) = some (a ∷ as', q)

abbrev pub and_then :
    Option (Answer × Bytes)
    → (Answer × Bytes → Option (List Answer × Bytes))
    → Option (List Answer × Bytes)
and_then none f = none
and_then (some r) f = f r

pub queues : Bytes → List Call → Option (List Answer × Bytes)
queues q [] = some ([], q)
queues q (k ∷ ks) = and_then (queue q k) (λ r. prepend_answer r.0 (queues r.1 ks))

-- So many bytes are written.
abbrev pub size : Call → ℕ
size (put x) = length x
size (put_word u) = 4
size _ = 0

abbrev pub total_size : List Call → ℕ
total_size [] = 0
total_size (k ∷ ks) = size k + total_size ks
