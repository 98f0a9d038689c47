-- ===== src/Pingpong/Tests.antt =====
-- Ping-pong at concrete inputs.
use learnuv.Base.{◌+◌, ◌≡◌, refl, List, [], ◌∷◌, arith, Bytes, length, replicate, ok, ℕ, ◌++◌}
use learnuv.Base.Int.{pos}
use learnuv.Chat.Wire.Fronts.{cuts}
use learnuv.Pingpong.Server.{Reply, serve, written_to, read_from}
use learnuv.Pingpong.Server.Late.{
  Lines, Moment, reads, sends, moments, sent_and_waiting, prompt, all_read, sends_to, sizes,
}
use learnuv.Pingpong.Server.Late.Counts.{arrived, promised}
use learnuv.Pingpong.Server.Late.Last.{late_lem}
use learnuv.Pingpong.Client.{Client, Action, sum_read}
use learnuv.Pingpong.Client.Answers.{Arrival, answer_all, answered, whole_buffers}
use learnuv.Pingpong.Round.{reads_of, round_lem}

abbrev one_session : Client
one_session = record {
  counter = pos 1;
  failed = 0;
  connections = record { bytes_read = 0; bytes_to_read = 4 } ∷ [];
  client_buf = 0 ∷ 1 ∷ 2 ∷ 3 ∷ [];
}

abbrev cut : List Bytes
cut = (0 ∷ 1 ∷ 2 ∷ []) ∷ (3 ∷ []) ∷ []

abbrev back : List Arrival
back = (0 ∷ 1 ∷ [], replicate 6 170) ∷ (2 ∷ 3 ∷ [], replicate 6 170) ∷ []

round_lem_example :
    (rs : List Reply) × (serve (replicate 8 0) (reads_of 7 cut) ≡ ok rs)
    × (written_to 7 rs ≡ 0 ∷ 1 ∷ 2 ∷ 3 ∷ [])
    × ((out : List Action) × (d : Client) × (answer_all one_session 0 back ≡ ok (out, d))
        × (sum_read d.connections ≡ sum_read one_session.connections + 4)
        × (answered out ≡ whole_buffers back)
        × (length (answered out) ≡ 16))
round_lem_example =
    round_lem (replicate 8 0) 7 cut one_session 0 8 back
      ((omega arith, omega arith), ((omega arith, omega arith), tt)) refl (omega arith)
      ((omega arith, refl), ((omega arith, refl), tt))

abbrev fresh : Lines
fresh = record { msg_buf = replicate 4 0; at = λ c. record { waiting = []; out = [] } }

abbrev two_reads : List (ℕ × Bytes)
two_reads = (1, 10 ∷ 11 ∷ []) ∷ (2, 20 ∷ 21 ∷ 22 ∷ []) ∷ []

abbrev mixed : List Moment
mixed = reads 1 (10 ∷ []) ∷ reads 2 (20 ∷ []) ∷ sends 2 ∷ reads 1 (12 ∷ []) ∷ sends 1 ∷ []

-- Connection 1 is sent the first two bytes of connection 2.
late_lem_example :
    ((t : Lines) × (moments fresh mixed ≡ ok t)
      × ((c : ℕ) → promised (t.at c) ≡ length (read_from c (arrived mixed))))
    × ((t : Lines) × (moments fresh (prompt two_reads) ≡ ok t)
        × ((c : ℕ) → (t.at c).out ≡ read_from c two_reads))
    × ((t : Lines) × (moments fresh (all_read two_reads ++ sends_to (2 ∷ 1 ∷ [])) ≡ ok t)
        × ((c : ℕ) → sent_and_waiting t c ≡ cuts (sizes c two_reads) (20 ∷ 21 ∷ 22 ∷ [])))
late_lem_example =
    late_lem fresh ((1, 10 ∷ 11 ∷ []) ∷ []) 2 (20 ∷ 21 ∷ 22 ∷ []) (2 ∷ 1 ∷ []) mixed (λ c. refl)
      ((omega arith, omega arith), ((omega arith, omega arith), ((omega arith, omega arith), tt)))
      ((omega arith, omega arith), ((omega arith, omega arith), tt))
      (omega arith, (omega arith, tt))
