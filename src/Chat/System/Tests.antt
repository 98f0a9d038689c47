-- ===== src/Chat/System/Tests.antt =====
-- A run of the chat: two clients join, one of them types a line, and the server reads its frame.
use learnuv.Base.{
  ℕ, ◌≡◌, refl, inl, true, List, [], ◌∷◌, ◌++◌, arith, Bytes, codes, length-replicate, ok, ap,
  replicate, ◌≢◌, ◌⊎◌, inr, ◌==◌, Bool-cases, ==→eq,
}
use learnuv.Base.Int.{pos}
use learnuv.Buffer.Inv.{new-IsValid}
use learnuv.Codec.Stream.{framed}
use learnuv.Uv.{count}
use learnuv.Chat.Wire.{make, take_oldest, moves}
use learnuv.Chat.Wire.Fronts.{made}
use learnuv.Chat.Wire.Queue.{all_made}
use learnuv.Chat.Server.{start, Write, Server, on_read, on_connection}
use learnuv.Chat.Server.Arrivals.{on_reads-first}
use learnuv.Chat.Server.History.{on_reads-broadcasts}
use learnuv.Chat.Server.Safety.{start-IsSafe}
use learnuv.Chat.Client.{start as start_client, Sent, Client, on_read_stdin}
use learnuv.Chat.Client.Input.{on_read_stdin_lem}
use learnuv.Chat.System.{System, joins, types, hears, Run, begins, then_step}
use learnuv.Chat.System.Invariant.{IsConserved}
use learnuv.Chat.System.Conserved.{Run-IsConserved}
use learnuv.Chat.System.Late.{writes_to, unused, read_and_waiting, Run-unharmed}
use learnuv.Chat.System.OneLine.{Run-one_line}

abbrev one_connected : Server
one_connected = record start { conns = 0 ∷ []; connections = 1 }

abbrev two_connected : Server
two_connected = record start { conns = 0 ∷ 1 ∷ []; connections = 2 }

first_joins : on_connection start (pos 0) true (pos 0) ≡ ok one_connected
unfolding on_connection
first_joins = refl

second_joins : on_connection one_connected (pos 0) true (pos 0) ≡ ok two_connected
unfolding on_connection
second_joins = refl

abbrev line : Bytes
line = codes "hi"

abbrev frame_of_line : Sent
frame_of_line = record { bytes = framed line; done = 1 }

typed :
    (c : Client) × (on_read_stdin start_client (count 2) (line ++ 0 ∷ [])
      ≡ ok (frame_of_line ∷ [], c))
typed =
    let (c, e, _, _, _) =
      (on_read_stdin_lem start_client 2 line []
          (record { valid = new-IsValid 1024 (omega arith); unread = refl }) (omega arith)
          (omega arith) (omega arith)).0
        (omega arith) in
    (c, e)

heard : (r : List Write × Server) × (on_read two_connected 0 (count 6) (framed line) ≡ ok r)
heard =
    let (t, e, _, _, _, _) =
      on_reads-broadcasts two_connected ((0, framed line) ∷ []) (line ∷ []) []
        (record {
          buf_valid = start-IsSafe.well.buf_valid;
          unread = refl;
          codec_ready = start-IsSafe.well.codec_ready;
        })
        (omega arith, tt) (omega arith, omega arith, tt) (inl (omega arith)) refl
        (omega (arith, length-replicate {A = ℕ} 8192 0)) (omega arith) in
    on_reads-first two_connected 0 (framed line) [] _ e

abbrev before_read : (s : System) × Run s
before_read = (
  _,
  then_step
      (then_step (then_step begins (joins (pos 0) true (pos 0) first_joins))
        (joins (pos 0) true (pos 0) second_joins))
      (types 0 (count 2) (line ++ 0 ∷ []) typed.1),
)

abbrev chat : (s : System) × Run s
chat = (_, then_step before_read.1 (hears 0 (framed line) [] refl (omega arith) heard.1))

Run-IsConserved_example : IsConserved chat.0
Run-IsConserved_example = Run-IsConserved chat.1

made-all_made : (xs : List Bytes) → made (all_made xs) ≡ xs
made-all_made [] = refl
made-all_made (x ∷ xs) = ap (◌∷◌ x) (made-all_made xs)

-- The server's writes all wait, and the client's one is read.
Run-unharmed_example :
    (read_and_waiting (moves (unused (replicate 8192 7)) (all_made (writes_to 0 chat.0.told)))
      ≡ (chat.0.peers 0).received ++ (chat.0.peers 0).down)
    × (read_and_waiting (moves (unused (replicate 1024 7)) (make (framed line) ∷ take_oldest ∷ []))
        ≡ (chat.0.peers 0).gone ++ (chat.0.peers 0).up)
Run-unharmed_example =
    Run-unharmed 0 (replicate 8192 7) (replicate 1024 7) (all_made (writes_to 0 chat.0.told))
      (make (framed line) ∷ take_oldest ∷ []) chat.1 (length-replicate {A = ℕ} 8192 7)
      (length-replicate {A = ℕ} 1024 7) (made-all_made (writes_to 0 chat.0.told)) refl

others_silent : (k : ℕ) → k ≢ 0 → (chat.0.peers k).asked ≡ []
others_silent k other = elim (Bool-cases (k == 0)) [
  | inl hit ↦ absurd (other (==→eq hit))
  | inr miss ↦ rw miss refl
]

Run-one_line_example :
    ((chat.0.peers 1).printed ≡ []) ⊎ ((chat.0.peers 1).printed ≡ codes "hi" ∷ [])
Run-one_line_example =
    Run-one_line 0 1 line chat.1 (omega arith) (omega arith) (omega arith, (omega arith, tt)) refl
      others_silent
