-- ===== src/Pingpong/Server/Late/Counts.antt =====
-- How much is sent, whenever the writes are sent (pingpong/server.cc)
use learnuv.Base.{
  ℕ, ◌+◌, ◌≤◌, ◌≡◌, refl, ap, subst, inl, inr, List, [], ◌∷◌, ◌++◌, arith, Bytes, length, take, All,
  length-append, length-take, ◌==◌, Bool-cases, ==→eq, ◌<◌, sym, ◌∙◌, All-append, length-overwrite,
  ok,
}
use learnuv.Pingpong.Server.{filled, read_from, Fits}
use learnuv.Pingpong.Server.Late.{
  Line, Lines, Moment, reads, sends, send_first, moments, after_read, after_send, moments-reads,
  after_read-hit, after_read-miss, IsIdle,
}

-- What is read at these moments
abbrev pub arrived : List Moment → List (ℕ × Bytes)
arrived [] = []
arrived (reads c xs ∷ ms) = (c, xs) ∷ arrived ms
arrived (sends c ∷ ms) = arrived ms

abbrev total : List ℕ → ℕ
total [] = 0
total (n ∷ ns) = n + total ns

total-append : (ns : List ℕ) (n : ℕ) → total (ns ++ n ∷ []) ≡ total ns + n
total-append [] n = ground arith
total-append (m ∷ ns) n = ground (arith, total-append ns n)

-- The number of bytes that were sent or wait
abbrev pub promised : Line → ℕ
promised l = length l.out + total l.waiting

-- Each write that waits is of bytes inside the memory.
abbrev AreWithin : Bytes → Line → Type 0
AreWithin memory l = All (λ n. n ≤ length memory) l.waiting

send_first-promised :
    (memory : Bytes) (l : Line)
    → AreWithin memory l
    → (promised (send_first l.waiting memory l) ≡ promised l)
      × AreWithin memory (send_first l.waiting memory l)
unfolding send_first
send_first-promised memory l h = by_waiting l.waiting refl h
  where
    by_waiting :
        (ns : List ℕ)
        → l.waiting ≡ ns
        → All (λ n. n ≤ length memory) ns
        → (promised (send_first ns memory l) ≡ promised l)
          × AreWithin memory (send_first ns memory l)
    by_waiting [] e h = (refl, subst (All (λ n. n ≤ length memory)) (sym e) h)
    by_waiting (n ∷ ns) e (short, h) =
        (omega (arith, ap total e, length-append l.out (take n memory), length-take n memory), h)

after_send-promised :
    (s : Lines) (c : ℕ)
    → ((d : ℕ) → AreWithin s.msg_buf (s.at d))
    → (d : ℕ)
    → (promised ((after_send s c).at d) ≡ promised (s.at d))
      × AreWithin s.msg_buf ((after_send s c).at d)
unfolding after_send
after_send-promised s c h d = elim (Bool-cases (c == d)) [
  | inl hit ↦ rw hit (
      subst
        (λ i.
          (promised (send_first (s.at c).waiting s.msg_buf (s.at c)) ≡ promised (s.at i))
          × AreWithin s.msg_buf (send_first (s.at c).waiting s.msg_buf (s.at c)))
        (==→eq hit) (send_first-promised s.msg_buf (s.at c) (h c)))
  | inr miss ↦ rw miss (refl, h d)
]

length-after_read :
    (s : Lines) (c : ℕ) (xs : Bytes) → length (after_read s c xs).msg_buf ≡ length s.msg_buf
unfolding after_read filled
length-after_read s c xs = length-overwrite 0 xs s.msg_buf

after_read-promised :
    (s : Lines) (c : ℕ) (xs : Bytes) (rs : List (ℕ × Bytes))
    → length xs ≤ length s.msg_buf
    → ((d : ℕ) → AreWithin s.msg_buf (s.at d))
    → (d : ℕ)
    → (promised ((after_read s c xs).at d) + length (read_from d rs)
        ≡ promised (s.at d) + length (read_from d ((c, xs) ∷ rs)))
      × AreWithin (after_read s c xs).msg_buf ((after_read s c xs).at d)
after_read-promised s c xs rs fit h d = elim (Bool-cases (c == d)) [
  | inl hit ↦
      let e = after_read-hit s c d xs hit in
      (
        rw hit (
            omega (
              arith,
              ap promised e,
              total-append (s.at d).waiting (length xs),
              length-append xs (read_from d rs),
            )),
        subst (AreWithin (after_read s c xs).msg_buf) (sym e) (
            All-append (λ n. n ≤ length (after_read s c xs).msg_buf) (s.at d).waiting
              (length xs ∷ []) (same_size (s.at d).waiting (h d))
              (omega (arith, length-after_read s c xs), tt)),
      )
  | inr miss ↦
      let e = after_read-miss s c d xs miss in
      (
        rw miss (ap (λ l. promised l + length (read_from d rs)) e),
        subst (AreWithin (after_read s c xs).msg_buf) (sym e) (same_size (s.at d).waiting (h d)),
      )
]
  where
    same_size :
        (ns : List ℕ)
        → All (λ n. n ≤ length s.msg_buf) ns
        → All (λ n. n ≤ length (after_read s c xs).msg_buf) ns
    same_size ns = subst (λ k. All (λ n. n ≤ k) ns) (sym (length-after_read s c xs))

-- Whenever the writes are sent, every byte that is read is answered by one.
pub counts_lem :
    (s : Lines) (ms : List Moment)
    → ((c : ℕ) → AreWithin s.msg_buf (s.at c))
    → Fits s.msg_buf (arrived ms)
    → (t : Lines) × (moments s ms ≡ ok t)
      × ((c : ℕ) → promised (t.at c) ≡ promised (s.at c) + length (read_from c (arrived ms)))
unfolding moments after_send
counts_lem s [] h fits = (s, refl, λ c. omega arith)
counts_lem s (reads d xs ∷ ms) h ((some_data, fit), fits) =
    let (t, e, all) =
      counts_lem (after_read s d xs) ms (λ c. (after_read-promised s d xs (arrived ms) fit h c).1)
        (subst (λ n. All (λ r. (0 < length r.1) × (length r.1 ≤ n)) (arrived ms))
          (sym (length-after_read s d xs)) fits) in
    (
      t,
      moments-reads s d xs ms some_data fit ∙ e,
      λ c. all c ∙ (after_read-promised s d xs (arrived ms) fit h c).0,
    )
counts_lem s (sends d ∷ ms) h fits =
    let (t, e, all) = counts_lem (after_send s d) ms (λ c. (after_send-promised s d h c).1) fits in
    (
      t,
      e,
      λ c. all c ∙ ap (λ n. n + length (read_from c (arrived ms))) (after_send-promised s d h c).0,
    )

pub idle-promised :
    (s : Lines) (ms : List Moment)
    → IsIdle s
    → Fits s.msg_buf (arrived ms)
    → (t : Lines) × (moments s ms ≡ ok t)
      × ((c : ℕ) → promised (t.at c) ≡ length ((s.at c).out ++ read_from c (arrived ms)))
idle-promised s ms idle fits =
    let (t, e, all) =
      counts_lem s ms (λ c. subst (All (λ n. n ≤ length s.msg_buf)) (sym (idle c)) tt) fits in
    (
      t,
      e,
      λ c.
          omega (
            arith,
            all c,
            ap total (idle c),
            length-append (s.at c).out (read_from c (arrived ms)),
          ),
    )
