-- ===== src/Pingpong/Server/Late.antt =====
-- When the server's writes are sent (pingpong/server.cc). All connections are read into the one
-- `msgBuf`, and each write refers to it until libuv sends the bytes, some time after it was asked
-- to; the writes to one connection go out in their order.
pub mod Prompt
pub mod Counts
pub mod Last
use learnuv.Base.{
  ℕ, ◌≤◌, ◌<◌, ◌≡◌, refl, sym, ap, ◌∙◌, inl, inr, List, [], ◌∷◌, ◌++◌, append_assoc, Bytes, length,
  take, ◌==◌, if◌then◌else◌, Bool-cases, ==→eq, Outcome, ok, ◌>>=◌, true, false, ◌>>◌,
}
use learnuv.Uv.{count}
use learnuv.Chat.Wire.Fronts.{cuts}
use learnuv.Pingpong.Server.{Reply, wrote, closed, filled, on_read_client, returned}

-- The lengths of the writes to a connection that wait, the oldest first, and what was sent
pub record Line : Type 0 where
  pub waiting : List ℕ
  pub out : Bytes

pub record Lines : Type 0 where
  pub msg_buf : Bytes
  pub at : ℕ → Line

-- Bytes of a connection are read, or the oldest write to it that waits is sent.
pub data Moment : Type 0 where
  reads : ℕ → Bytes → Moment
  sends : ℕ → Moment

abbrev pub with_line : (ℕ → Line) → ℕ → Line → ℕ → Line
with_line at c l d = if c == d then l else at d

-- What the callback asks for waits.
pub ask : List Reply → (ℕ → Line) → ℕ → Line
ask [] at = at
ask (wrote c xs ∷ rs) at =
    ask rs (with_line at c (record (at c) { waiting = (at c).waiting ++ length xs ∷ [] }))
ask (closed c ∷ rs) at = ask rs at

pub send_first : List ℕ → Bytes → Line → Line
send_first [] memory l = l
send_first (n ∷ ns) memory l = record { waiting = ns; out = l.out ++ take n memory }

pub moments : Lines → List Moment → Outcome Lines
unfolding filled on_read_client ask send_first
moments s [] = ok s
moments s (reads c xs ∷ ms) = do
  let memory = filled s.msg_buf xs
  rs ← on_read_client c (count (length xs)) memory
  moments (record { msg_buf = memory; at = ask rs s.at }) ms
moments s (sends c ∷ ms) =
    moments (record s { at = with_line s.at c (send_first (s.at c).waiting s.msg_buf (s.at c)) }) ms

-- What was sent to a connection, and what would be sent now for its writes that wait
abbrev pub sent_and_waiting : Lines → ℕ → Bytes
sent_and_waiting s c = (s.at c).out ++ cuts (s.at c).waiting s.msg_buf

abbrev pub IsIdle : Lines → Type 0
IsIdle s = (c : ℕ) → (s.at c).waiting ≡ []

-- Each read is answered before the next one; or all are read first.
abbrev pub prompt : List (ℕ × Bytes) → List Moment
prompt [] = []
prompt ((c, xs) ∷ rs) = reads c xs ∷ sends c ∷ prompt rs

abbrev pub all_read : List (ℕ × Bytes) → List Moment
all_read [] = []
all_read ((c, xs) ∷ rs) = reads c xs ∷ all_read rs

abbrev pub sends_to : List ℕ → List Moment
sends_to [] = []
sends_to (c ∷ cs) = sends c ∷ sends_to cs

-- The lengths of the reads of a connection
abbrev pub sizes : ℕ → List (ℕ × Bytes) → List ℕ
sizes c [] = []
sizes c ((d, xs) ∷ rs) = if d == c then length xs ∷ sizes c rs else sizes c rs

-- Where the lines stand after a read.
pub after_read : Lines → ℕ → Bytes → Lines
unfolding filled
after_read s c xs = record {
  msg_buf = filled s.msg_buf xs;
  at = with_line s.at c (record (s.at c) { waiting = (s.at c).waiting ++ length xs ∷ [] });
}

pub moments-reads :
    (s : Lines) (c : ℕ) (xs : Bytes) (ms : List Moment)
    → 0 < length xs
    → length xs ≤ length s.msg_buf
    → moments s (reads c xs ∷ ms) ≡ moments (after_read s c xs) ms
unfolding moments after_read ask
moments-reads s c xs ms h k = rw (returned s.msg_buf c xs h k) refl

-- The line of a connection is sent from, that of another one stays.
pub after_send : Lines → ℕ → Lines
unfolding send_first
after_send s c = record s { at = with_line s.at c (send_first (s.at c).waiting s.msg_buf (s.at c)) }

send_first-same :
    (memory : Bytes) (l : Line)
    → (send_first l.waiting memory l).out ++ cuts (send_first l.waiting memory l).waiting memory
      ≡ l.out ++ cuts l.waiting memory
unfolding send_first
send_first-same memory l = by_waiting l.waiting refl
  where
    by_waiting :
        (ns : List ℕ)
        → l.waiting ≡ ns
        → (send_first ns memory l).out ++ cuts (send_first ns memory l).waiting memory
          ≡ l.out ++ cuts l.waiting memory
    by_waiting [] e = refl
    by_waiting (n ∷ ns) e =
        append_assoc l.out (take n memory) (cuts ns memory)
        ∙ ap (λ q. l.out ++ cuts q memory) (sym e)

after_send-same : (s : Lines) (c d : ℕ) → sent_and_waiting (after_send s c) d ≡ sent_and_waiting s d
unfolding after_send
after_send-same s c d = elim (Bool-cases (c == d)) [
  | inl hit ↦ rw hit (send_first-same s.msg_buf (s.at c) ∙ ap (sent_and_waiting s) (==→eq hit))
  | inr miss ↦ rw miss refl
]

-- Sending, in any order, keeps what was sent and what would be sent now.
pub sends_to_lem :
    (s : Lines) (cs : List ℕ)
    → (t : Lines) × (moments s (sends_to cs) ≡ ok t)
      × ((c : ℕ) → sent_and_waiting t c ≡ sent_and_waiting s c)
unfolding moments after_send
sends_to_lem s [] = (s, refl, λ c. refl)
sends_to_lem s (d ∷ cs) =
    let (t, e, same) = sends_to_lem (after_send s d) cs in
    (t, e, λ c. same c ∙ after_send-same s d c)

pub after_read-hit :
    (s : Lines) (d c : ℕ) (xs : Bytes)
    → (d == c) ≡ true
    → (after_read s d xs).at c ≡ record (s.at c) { waiting = (s.at c).waiting ++ length xs ∷ [] }
unfolding after_read
after_read-hit s d c xs hit =
    rw hit (ap (λ i. record (s.at i) { waiting = (s.at i).waiting ++ length xs ∷ [] }) (==→eq hit))

pub after_read-miss :
    (s : Lines) (d c : ℕ) (xs : Bytes) → (d == c) ≡ false → (after_read s d xs).at c ≡ s.at c
unfolding after_read
after_read-miss s d c xs miss = rw miss refl
