-- ===== src/Pingpong/Server/Late/Last.antt =====
-- Writes that wait until all the reads are done (pingpong/server.cc)
use learnuv.Base.{
  ℕ, ◌≤◌, ◌≡◌, refl, sym, ap, ap₂, ◌∙◌, inl, inr, List, [], ◌∷◌, ◌++◌, append-nil, append_assoc,
  arith, Bytes, length, take, overwrite, All, length-overwrite, take-overwrite, take-take, ◌==◌,
  Bool-cases, ok,
}
use learnuv.Chat.Wire.Fronts.{cuts}
use learnuv.Pingpong.Server.{filled, read_from, Fits, filled-Fits}
use learnuv.Pingpong.Server.Late.{
  Lines, Moment, moments, sent_and_waiting, IsIdle, prompt, all_read, sends_to, sizes, after_read,
  moments-reads, sends_to_lem, after_read-hit, after_read-miss,
}
use learnuv.Pingpong.Server.Late.Prompt.{prompt_lem}
use learnuv.Pingpong.Server.Late.Counts.{arrived, promised, idle-promised}

-- `msgBuf` after these reads
filled_by : Bytes → List (ℕ × Bytes) → Bytes
unfolding filled
filled_by msg_buf [] = msg_buf
filled_by msg_buf ((c, xs) ∷ rs) = filled_by (filled msg_buf xs) rs

length-filled_by : (m : Bytes) (rs : List (ℕ × Bytes)) → length (filled_by m rs) ≡ length m
unfolding filled_by filled
length-filled_by m [] = refl
length-filled_by m ((c, xs) ∷ rs) = length-filled_by (filled m xs) rs ∙ length-overwrite 0 xs m

filled_by-last :
    (m : Bytes) (rs : List (ℕ × Bytes)) (d : ℕ) (y : Bytes)
    → filled_by m (rs ++ (d, y) ∷ []) ≡ overwrite 0 y (filled_by m rs)
unfolding filled_by filled
filled_by-last m [] d y = refl
filled_by-last m ((c, xs) ∷ rs) d y = filled_by-last (filled m xs) rs d y

-- Once `msgBuf` begins with `y`, writes that are no longer send beginnings of it.
cuts-front :
    (y memory : Bytes) (ns : List ℕ)
    → length y ≤ length memory
    → All (λ n. n ≤ length y) ns
    → cuts ns (overwrite 0 y memory) ≡ cuts ns y
cuts-front y memory [] fit h = refl
cuts-front y memory (n ∷ ns) fit (short, h) =
    ap₂ ◌++◌
      (sym (take-take n (length y) (overwrite 0 y memory) short)
        ∙ ap (take n) (take-overwrite 0 (length y) y memory (omega arith) (omega arith)))
      (cuts-front y memory ns fit h)

-- What waits after the reads, before any of it is sent
all_read_lem :
    (s : Lines) (rs : List (ℕ × Bytes)) (ms : List Moment)
    → Fits s.msg_buf rs
    → (t : Lines) × (moments s (all_read rs ++ ms) ≡ moments t ms)
      × (t.msg_buf ≡ filled_by s.msg_buf rs)
      × ((c : ℕ)
          → ((t.at c).waiting ≡ (s.at c).waiting ++ sizes c rs) × ((t.at c).out ≡ (s.at c).out))
unfolding after_read filled_by filled
all_read_lem s [] ms h = (s, refl, refl, λ c. (sym (append-nil (s.at c).waiting), refl))
all_read_lem s ((d, xs) ∷ rs) ms ((some_data, fit), h) =
    let (t, e, front, line) =
      all_read_lem (after_read s d xs) rs ms (filled-Fits s.msg_buf xs rs h) in
    (
      t,
      moments-reads s d xs (all_read rs ++ ms) some_data fit ∙ e,
      front,
      λ c. elim (Bool-cases (d == c)) [
        | inl hit ↦ (
          rw hit (
              (line c).0
              ∙ ap (λ l. l.waiting ++ sizes c rs) (after_read-hit s d c xs hit)
              ∙ append_assoc (s.at c).waiting (length xs ∷ []) (sizes c rs)),
          (line c).1 ∙ ap (λ l. l.out) (after_read-hit s d c xs hit),
        )
        | inr miss ↦ (
          rw miss ((line c).0 ∙ ap (λ l. l.waiting ++ sizes c rs) (after_read-miss s d c xs miss)),
          (line c).1 ∙ ap (λ l. l.out) (after_read-miss s d c xs miss),
        )
      ],
    )

-- Nothing that was read is longer than `n`.
sizes-short :
    (c n : ℕ) (rs : List (ℕ × Bytes)) → All (λ r. length r.1 ≤ n) rs → All (λ k. k ≤ n) (sizes c rs)
sizes-short c n [] h = tt
sizes-short c n ((d, xs) ∷ rs) (short, h) = elim (Bool-cases (d == c)) [
  | inl hit ↦ rw hit (short, sizes-short c n rs h)
  | inr miss ↦ rw miss (sizes-short c n rs h)
]

-- On a server none of whose writes waits, whatever connections the reads come from, and besides
-- what was sent before: in any order of reads and sends, what a connection was sent and what waits
-- for it are together as many bytes as were read from it. If each write is sent before the next
-- read, every connection is sent exactly the bytes that were read from it, in order. But if the
-- writes are sent only after all the reads, in whatever order of the connections, each connection
-- is sent, for each read from it, as many bytes of the last read of all, when no other read is
-- longer: the bytes of another connection.
pub late_lem :
    (s : Lines) (rs : List (ℕ × Bytes)) (d : ℕ) (y : Bytes) (cs : List ℕ) (ms : List Moment)
    → IsIdle s
    → Fits s.msg_buf (arrived ms)
    → Fits s.msg_buf (rs ++ (d, y) ∷ [])
    → All (λ r. length r.1 ≤ length y) (rs ++ (d, y) ∷ [])
    → ((t : Lines) × (moments s ms ≡ ok t)
        × ((c : ℕ) → promised (t.at c) ≡ length ((s.at c).out ++ read_from c (arrived ms))))
      × ((t : Lines) × (moments s (prompt (rs ++ (d, y) ∷ [])) ≡ ok t)
          × ((c : ℕ) → (t.at c).out ≡ (s.at c).out ++ read_from c (rs ++ (d, y) ∷ [])))
      × ((t : Lines) × (moments s (all_read (rs ++ (d, y) ∷ []) ++ sends_to cs) ≡ ok t)
          × ((c : ℕ) → sent_and_waiting t c ≡ (s.at c).out ++ cuts (sizes c (rs ++ (d, y) ∷ [])) y))
late_lem s rs d y cs ms idle fits h short =
    let all = rs ++ (d, y) ∷ [] in
    let (t₁, e, memory, line) = all_read_lem s all (sends_to cs) h in
    let (t, e', same) = sends_to_lem t₁ cs in
    let fit : length y ≤ length (filled_by s.msg_buf rs) =
      omega (arith, length-filled_by s.msg_buf rs, last_fits rs h) in
    (
      idle-promised s ms idle fits,
      prompt_lem s all idle h,
      (
        t,
        e ∙ e',
        λ c.
            same c
            ∙ ap₂ ◌++◌ (line c).1 (
                ap₂ cuts ((line c).0 ∙ ap (λ q. q ++ sizes c all) (idle c))
                  (memory ∙ filled_by-last s.msg_buf rs d y)
                ∙ cuts-front y (filled_by s.msg_buf rs) (sizes c all) fit
                    (sizes-short c (length y) all short)),
      ),
    )
  where
    last_fits :
        (rs : List (ℕ × Bytes)) → Fits s.msg_buf (rs ++ (d, y) ∷ []) → length y ≤ length s.msg_buf
    last_fits [] h = h.0.1
    last_fits (r ∷ rs) h = last_fits rs h.1
