-- ===== src/Threads/Tests.antt =====
-- The threaded server at concrete inputs.
use learnuv.Base.{
  ◌≡◌, refl, List, [], ◌∷◌, ◌++◌, arith, Bytes, codes, replicate, out_of_range, ok, fail,
}
use learnuv.Base.Int.{pos}
use learnuv.Uv.{c_string}
use learnuv.Threads.{
  end_of_stream, on_read, child_loop, Incoming, on_new_connection, main_loop, main,
}
use learnuv.Threads.Answers.{AnswersAll, main-AnswersAll}

abbrev visitor : List Bytes → Incoming
visitor xs = record { status = pos 0; accepted = pos 0; reads = xs; ending = end_of_stream }

abbrev visitors : List Incoming
visitors = visitor (codes "abc" ∷ []) ∷ visitor (codes "x" ∷ [] ∷ []) ∷ []

main-AnswersAll_example :
    (outs : List (List Bytes)) × (main visitors ≡ ok outs) × AnswersAll [] visitors outs
main-AnswersAll_example = main-AnswersAll visitors (omega arith)

-- The second visitor is sent bytes of the first.
seen_by_second :
    main_loop (replicate 4 0) visitors
    ≡ ok (
        ((codes "abc" ++ 0 ∷ []) ∷ [])
        ∷ ((codes "xbc" ++ 0 ∷ []) ∷ (codes "xbc" ++ 0 ∷ []) ∷ [])
        ∷ [])
unfolding main_loop on_new_connection child_loop on_read c_string
seen_by_second = refl

-- A read that fills the buffer with bytes that are not zero is printed beyond its end.
full_read : main_loop (replicate 4 0) (visitor (codes "abcd" ∷ []) ∷ []) ≡ fail out_of_range
unfolding main_loop on_new_connection child_loop on_read c_string
full_read = refl
