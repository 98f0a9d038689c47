-- ===== src/Buffer/Tests.antt =====
-- Runs of the buffer, and its theorems at concrete inputs.
use learnuv.Base.{
  ◌≤◌, ◌<◌, ◌≡◌, refl, inl, ◌↔◌, [], ◌∷◌, ◌++◌, arith, Bytes, codes, length, drop, assertion, ok,
  fail, ◌⊎◌, none, some, List,
}
use learnuv.Base.Word.{be32_value}
use learnuv.Buffer.{
  Buffer, new, swap, retrieve, retrieve_as_string, append, read_uint32, write_uint32,
}
use learnuv.Buffer.Inv.{IsValid, contents, new-IsValid}
use learnuv.Buffer.Append.{append_lem, append_aborts_iff}
use learnuv.Buffer.Retrieve.{retrieve_lem, retrieve_as_string_splits}
use learnuv.Buffer.Words.{read_uint32_lem, read_uint32-write_uint32}
use learnuv.Buffer.Calls.{
  Call, put, take_front, put_word, take_word, look_at_word, drop_word, Answer, calls, queues,
}
use learnuv.Buffer.Calls.Refine.{calls-queues}

-- Eight bytes of memory, of which 2 to 4 are readable.
abbrev used : Buffer
used = record { buffer = 1 ∷ 2 ∷ 3 ∷ 4 ∷ 5 ∷ 0 ∷ 0 ∷ 0 ∷ []; reader_index = 2; writer_index = 5 }

abbrev used_IsValid : IsValid used
used_IsValid = omega arith

append_grows :
    append used (codes "abcdef") 6
    ≡ ok (record {
      buffer = 1 ∷ 2 ∷ 3 ∷ 4 ∷ 5 ∷ codes "abcdef";
      reader_index = 2;
      writer_index = 11;
    })
unfolding append
append_grows = refl

append_stops : append used (codes "abcd") 4 ≡ fail assertion
unfolding append
append_stops = refl

swap_runs : (swap used (new 2)).0 ≡ new 2
unfolding swap
swap_runs = refl

append_lem_run :
    (c : Buffer) × (append used (codes "ab") 2 ≡ ok c)
    × IsValid c
    × (contents c ≡ contents used ++ codes "ab")
    × (c.writer_index ≡ 7)
    × (8 ≤ length c.buffer)
    × (c.reader_index ≡ 2)
append_lem_run = append_lem (codes "ab") used_IsValid (inl (omega arith))

append_aborts_iff_example : (append used (codes "abcd") 4 ≡ fail assertion) ↔ ((3 < 4) × (4 ≤ 5))
append_aborts_iff_example = append_aborts_iff (codes "abcd") used_IsValid (omega arith)

retrieve_lem_run :
    (2 ≤ 3 → (c : Buffer) × (retrieve used 2 ≡ ok c) × IsValid c × (contents c ≡ 5 ∷ []))
    × (3 < 2 → retrieve used 2 ≡ fail assertion)
retrieve_lem_run = retrieve_lem 2 used_IsValid

retrieve_as_string_splits_run :
    (s : Bytes) × (c : Buffer) × (retrieve_as_string used 2 ≡ ok (s, c))
    × (length s ≡ 2)
    × (s ++ contents c ≡ 3 ∷ 4 ∷ 5 ∷ [])
    × IsValid c
retrieve_as_string_splits_run = retrieve_as_string_splits 2 used_IsValid (omega arith)

read_uint32_lem_run :
    (4 ≤ 3
      → (c : Buffer) × (read_uint32 used ≡ ok (be32_value (contents used), c))
        × IsValid c
        × (contents c ≡ drop 4 (contents used)))
    × (3 < 4 → read_uint32 used ≡ fail assertion)
read_uint32_lem_run = read_uint32_lem used_IsValid

read_uint32-write_uint32_run :
    (c d : Buffer) × (write_uint32 (new 8) 258 ≡ ok c)
    × (read_uint32 c ≡ ok (258, d))
    × (contents d ≡ [])
read_uint32-write_uint32_run =
    read_uint32-write_uint32 258 (new-IsValid 8 (omega arith)) refl (inl (omega arith))
      (omega arith)

abbrev some_calls : List Call
some_calls =
    put (codes "abc") ∷ put_word 258 ∷ take_front 3 ∷ look_at_word ∷ take_word ∷ drop_word ∷ []

calls-queues_example :
    ((answers : List Answer) × (c : Buffer) × (calls (new 16) some_calls ≡ ok (answers, c))
      × (queues [] some_calls ≡ some (answers, contents c))
      × IsValid c)
    ⊎ ((calls (new 16) some_calls ≡ fail assertion) × (queues [] some_calls ≡ none))
calls-queues_example = calls-queues (new 16) some_calls (new-IsValid 16 (omega arith)) (omega arith)
