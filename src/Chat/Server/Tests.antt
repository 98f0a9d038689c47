-- ===== src/Chat/Server/Tests.antt =====
-- States that the chat server comes to.
use learnuv.Base.{refl, true, [], ◌∷◌, ◌≡◌, ok, ℕ, inl, some, List, arith, codes, length-replicate}
use learnuv.Base.Int.{pos}
use learnuv.Codec.Stream.{framed}
use learnuv.Uv.{count}
use learnuv.Chat.Server.{
  Server, start, erase, on_read, on_connection, Reached, connects, ends, handle, started, next,
  Write, arrives,
}
use learnuv.Chat.Server.Arrivals.{on_reads-first}
use learnuv.Chat.Server.History.{on_reads-broadcasts}
use learnuv.Chat.Server.Safety.{IsSafe, Reached-IsSafe, start-IsSafe}
use learnuv.Chat.Server.Lifetime.{Use, Lived, begins, goes_on, replay, no_handles, handles_of}
use learnuv.Chat.Server.Lifetime.Histories.{Lived-replay}

abbrev one : Server
one = record start { conns = 0 ∷ []; connections = 1 }

abbrev two : Server
two = record start { conns = 0 ∷ 1 ∷ []; connections = 2 }

abbrev second_left : Server
second_left = record start { conns = 1 ∷ []; connections = 2 }

first_connects : handle start (connects (pos 0) true (pos 0)) ≡ ok ([], one)
unfolding handle on_connection
first_connects = refl

second_connects : handle one (connects (pos 0) true (pos 0)) ≡ ok ([], two)
unfolding handle on_connection
second_connects = refl

first_ends : handle two (ends 0) ≡ ok ([], second_left)
unfolding handle on_read erase
first_ends = refl

second_left-Reached : Reached second_left
second_left-Reached =
    next (ends 0) []
      (next (connects (pos 0) true (pos 0)) []
        (next (connects (pos 0) true (pos 0)) [] started tt first_connects) tt second_connects)
      tt first_ends

Reached-IsSafe_run : IsSafe second_left
Reached-IsSafe_run = Reached-IsSafe second_left-Reached

-- The first client says hello, and goes.
hello_heard : (r : List Write × Server) × (on_read two 0 (count 6) (framed (codes "hi")) ≡ ok r)
hello_heard =
    let (t, e, _, _, _, _) =
      on_reads-broadcasts two ((0, framed (codes "hi")) ∷ []) (codes "hi" ∷ []) []
        (record {
          buf_valid = start-IsSafe.well.buf_valid;
          unread = refl;
          codec_ready = start-IsSafe.well.codec_ready;
        })
        (omega arith, tt) (omega arith, omega arith, tt) (inl (omega arith)) refl
        (omega (arith, length-replicate {A = ℕ} 8192 0)) (omega arith) in
    on_reads-first two 0 (framed (codes "hi")) [] _ e

hello_handled : handle two (arrives 0 (framed (codes "hi"))) ≡ ok hello_heard.0
unfolding handle
hello_handled = hello_heard.1

abbrev after_hello : Server
after_hello = record hello_heard.0.1 { conns = erase 0 hello_heard.0.1.conns }

first_goes : handle hello_heard.0.1 (ends 0) ≡ ok ([], after_hello)
unfolding handle on_read
first_goes = refl

abbrev history : (us : List Use) × Lived after_hello us
history = (
  _,
  goes_on (ends 0) []
      (goes_on (arrives 0 (framed (codes "hi"))) hello_heard.0.0
        (goes_on (connects (pos 0) true (pos 0)) []
          (goes_on (connects (pos 0) true (pos 0)) [] begins tt first_connects) tt second_connects)
        (omega arith) hello_handled)
      tt first_goes,
)

Lived-replay_example : replay no_handles history.0 ≡ some (handles_of after_hello)
Lived-replay_example = Lived-replay history.1
