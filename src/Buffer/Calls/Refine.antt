-- ===== src/Buffer/Calls/Refine.antt =====
-- The buffer as a queue of bytes: what a client sees of any sequence of calls.
use native.Mathlib.Decide.{dec_le}
use learnuv.Base.{
  ℕ, ◌+◌, ◌≤◌, ◌<◌, ◌≡◌, refl, sym, ap, ◌∙◌, ◌⊎◌, inl, inr, none, some, List, [], ◌∷◌, arith, Bytes,
  length, take, drop, assertion, ok, fail,
}
use learnuv.Base.Word.{be32_value}
use learnuv.Buffer.{
  Buffer, retrieve_all, retrieve_as_string, peek_uint32, retrieve_uint32, read_uint32,
}
use learnuv.Buffer.Inv.{IsValid, contents, readable_bytes-length}
use learnuv.Buffer.Append.{append_lem}
use learnuv.Buffer.Retrieve.{
  retrieved, retrieve_ok, retrieved-IsValid, contents-retrieved, retrieve_lem,
  retrieve_as_string_ok, retrieved_memory,
}
use learnuv.Buffer.Words.{write_uint32_lem, peek_uint32_ok}
use learnuv.Buffer.Calls.{
  Call, put, drop_front, clear, take_front, put_word, take_word, look_at_word, drop_word, Answer,
  done, text, word, call, calls, at_least, queue, queues, size, total_size,
}

-- A call that both sides answer in the same way, and after which there is room for `more` bytes; or
-- one that both refuse.
record IsAnswered (b : Buffer) (k : Call) (more : ℕ) : Type 0 where
  answer : Answer
  after : Buffer
  returns : call b k ≡ ok (answer, after)
  same : queue (contents b) k ≡ some (answer, contents after)
  valid : IsValid after
  room : after.writer_index + more ≤ length after.buffer

abbrev IsRefused : Buffer → Call → Type 0
IsRefused b k = (call b k ≡ fail assertion) × (queue (contents b) k ≡ none)

module _ (b : Buffer) (v : IsValid b) (more : ℕ) where
  put-IsAnswered :
      (x : Bytes) → b.writer_index + length x + more ≤ length b.buffer → IsAnswered b (put x) more
  unfolding call
  put-IsAnswered x room =
      let (c, added, vc, holds, at_end, grown, _) = append_lem x v (inl (omega arith)) in
      record {
        answer = done;
        after = c;
        returns = rw added refl;
        same = ap (λ q. some (done, q)) (sym holds);
        valid = vc;
        room = omega arith;
      }

  put_word-IsAnswered :
      (u : ℕ) → b.writer_index + 4 + more ≤ length b.buffer → IsAnswered b (put_word u) more
  unfolding call
  put_word-IsAnswered u room =
      let (c, added, vc, holds, at_end, grown, _) = write_uint32_lem u v (inl (omega arith)) in
      record {
        answer = done;
        after = c;
        returns = rw added refl;
        same = ap (λ q. some (done, q)) (sym holds);
        valid = vc;
        room = omega arith;
      }

  -- Where the first bytes are there, both give them.
  taken :
      (n : ℕ) (k : Call) (a : Answer)
      → b.writer_index + more ≤ length b.buffer
      → n ≤ length (contents b)
      → call b k ≡ ok (a, retrieved b n)
      → queue (contents b) k ≡ some (a, drop n (contents b))
      → IsAnswered b k more
  taken n k a room h e e' =
      let (memory, index) = retrieved_memory b n in
      record {
        answer = a;
        after = retrieved b n;
        returns = e;
        same = e' ∙ ap (λ q. some (a, q)) (sym (contents-retrieved b n h));
        valid = retrieved-IsValid n v;
        room = omega (arith, ap (length {A = ℕ}) memory);
      }

  enough :
      (n : ℕ) (a : Answer) (rest : Bytes)
      → n ≤ length (contents b)
      → at_least n (contents b) a rest ≡ some (a, rest)
  enough n a rest h = ground arith

  too_few :
      (n : ℕ) (a : Answer) (rest : Bytes)
      → length (contents b) < n
      → at_least n (contents b) a rest ≡ none
  too_few n a rest h = ground arith

  peek_uint32_fails : length (contents b) < 4 → peek_uint32 b ≡ fail assertion
  unfolding peek_uint32
  peek_uint32_fails h = ground (arith, readable_bytes-length v)

  retrieve_as_string_fails :
      (n : ℕ) → length (contents b) < n → retrieve_as_string b n ≡ fail assertion
  unfolding retrieve_as_string
  retrieve_as_string_fails n h = ground (arith, readable_bytes-length v)

  call-cases :
      (k : Call)
      → b.writer_index + size k + more ≤ length b.buffer
      → IsAnswered b k more ⊎ IsRefused b k
  unfolding call read_uint32 retrieve_uint32
  call-cases (put x) room = inl (put-IsAnswered x room)
  call-cases (put_word u) room = inl (put_word-IsAnswered u room)
  call-cases clear room = inl (record {
    answer = done;
    after = retrieve_all b;
    returns = refl;
    same = refl;
    valid = record { ordered = omega arith; inside = omega arith; small = v.small };
    room = omega arith;
  })
  call-cases (drop_front n) room = elim (dec_le n (length (contents b))) [
    | yes h ↦ inl (
        taken n (drop_front n) done (omega arith) h (rw (retrieve_ok n v h) refl)
          (enough n done (drop n (contents b)) h))
    | no h ↦ inr (
      rw ((retrieve_lem n v).1 (omega arith)) refl,
      too_few n done (drop n (contents b)) (omega arith),
    )
  ]
  call-cases (take_front n) room = elim (dec_le n (length (contents b))) [
    | yes h ↦ inl (
        taken n (take_front n) (text (take n (contents b))) (omega arith) h
          (rw (retrieve_as_string_ok n v h) refl)
          (enough n (text (take n (contents b))) (drop n (contents b)) h))
    | no h ↦ inr (
      rw (retrieve_as_string_fails n (omega arith)) refl,
      too_few n (text (take n (contents b))) (drop n (contents b)) (omega arith),
    )
  ]
  call-cases take_word room = elim (dec_le 4 (length (contents b))) [
    | yes h ↦ inl (
        taken 4 take_word (word (be32_value (contents b))) (omega arith) h
          (rw (peek_uint32_ok v h) (rw (retrieve_ok 4 v h) refl))
          (enough 4 (word (be32_value (contents b))) (drop 4 (contents b)) h))
    | no h ↦ inr (
      rw (peek_uint32_fails (omega arith)) refl,
      too_few 4 (word (be32_value (contents b))) (drop 4 (contents b)) (omega arith),
    )
  ]
  call-cases look_at_word room = elim (dec_le 4 (length (contents b))) [
    | yes h ↦ inl (record {
      answer = word (be32_value (contents b));
      after = b;
      returns = rw (peek_uint32_ok v h) refl;
      same = enough 4 (word (be32_value (contents b))) (contents b) h;
      valid = v;
      room = omega arith;
    })
    | no h ↦ inr (
      rw (peek_uint32_fails (omega arith)) refl,
      too_few 4 (word (be32_value (contents b))) (contents b) (omega arith),
    )
  ]
  call-cases drop_word room = elim (dec_le 4 (length (contents b))) [
    | yes h ↦ inl (
        taken 4 drop_word done (omega arith) h (rw (retrieve_ok 4 v h) refl)
          (enough 4 done (drop 4 (contents b)) h))
    | no h ↦ inr (
      rw ((retrieve_lem 4 v).1 (omega arith)) refl,
      too_few 4 done (drop 4 (contents b)) (omega arith),
    )
  ]

-- On a valid buffer that has room for all the bytes that the calls write, any sequence of the
-- methods does what it does on a queue of bytes: either both give the same answers, and the buffer
-- is valid and holds what the queue holds; or the queue has too few bytes for one of the calls, and
-- the buffer fails an assertion.
pub calls-queues :
    (b : Buffer) (ks : List Call)
    → IsValid b
    → b.writer_index + total_size ks ≤ length b.buffer
    → ((answers : List Answer) × (c : Buffer) × (calls b ks ≡ ok (answers, c))
        × (queues (contents b) ks ≡ some (answers, contents c))
        × IsValid c)
      ⊎ ((calls b ks ≡ fail assertion) × (queues (contents b) ks ≡ none))
unfolding calls queues
calls-queues b [] v room = inl ([], b, refl, refl, v)
calls-queues b (k ∷ ks) v room = elim (call-cases b v (total_size ks) k (omega arith)) [
  | inr (fails, refused) ↦ inr (rw fails refl, rw refused refl)
  | inl a ↦ elim (calls-queues a.after ks a.valid a.room) [
    | inl (answers, c, returns, same, vc) ↦
        inl (a.answer ∷ answers, c, rw a.returns (rw returns refl), rw a.same (rw same refl), vc)
    | inr (fails, refused) ↦ inr (rw a.returns (rw fails refl), rw a.same (rw refused refl))
  ]
]
