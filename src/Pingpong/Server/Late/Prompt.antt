-- ===== src/Pingpong/Server/Late/Prompt.antt =====
-- Writes that are sent before the next read (pingpong/server.cc)
use learnuv.Base.{
  ℕ, ◌≤◌, ◌≡◌, refl, sym, ap, ap₂, ◌∙◌, inl, inr, List, [], ◌∷◌, ◌++◌, append-nil, append_assoc,
  arith, Bytes, length, take, take-overwrite, ◌==◌, if◌then◌else◌, Bool-cases, ==→eq, ok,
}
use learnuv.Pingpong.Server.{filled, read_from, Fits, filled-Fits}
use learnuv.Pingpong.Server.Late.{
  Lines, sends, send_first, moments, IsIdle, prompt, after_read, moments-reads, after_send,
  after_read-hit, after_read-miss,
}

after_read-front :
    (s : Lines) (c : ℕ) (xs : Bytes)
    → length xs ≤ length s.msg_buf
    → take (length xs) (after_read s c xs).msg_buf ≡ xs
unfolding after_read filled
after_read-front s c xs fit = take-overwrite 0 (length xs) xs s.msg_buf (omega arith) (omega arith)

-- A read that is answered at once
after_round : Lines → ℕ → Bytes → Lines
unfolding after_send
after_round s c xs = after_send (after_read s c xs) c

after_round_lem :
    (s : Lines) (d : ℕ) (xs : Bytes) (c : ℕ)
    → length xs ≤ length s.msg_buf
    → IsIdle s
    → (((after_round s d xs).at c).waiting ≡ [])
      × (((after_round s d xs).at c).out ≡ (s.at c).out ++ (if d == c then xs else []))
unfolding after_round after_send send_first
after_round_lem s d xs c fit idle = elim (Bool-cases (d == c)) [
  | inl hit ↦ (
    rw hit (ap (λ l. l.waiting) sent),
    rw hit (
        ap (λ l. l.out) sent
        ∙ ap₂ (λ i ys. (s.at i).out ++ ys) (==→eq hit) (after_read-front s d xs fit)),
  )
  | inr miss ↦ (
    rw miss (ap (λ l. l.waiting) (after_read-miss s d c xs miss) ∙ idle c),
    rw miss (ap (λ l. l.out) (after_read-miss s d c xs miss) ∙ sym (append-nil (s.at c).out)),
  )
]
  where
    memory : Bytes
    memory = (after_read s d xs).msg_buf

    line : (after_read s d xs).at d ≡ record { waiting = length xs ∷ []; out = (s.at d).out }
    line =
        after_read-hit s d d xs (ground arith)
        ∙ ap (λ q. record { waiting = q ++ length xs ∷ []; out = (s.at d).out }) (idle d)

    sent :
        send_first ((after_read s d xs).at d).waiting memory ((after_read s d xs).at d)
        ≡ record { waiting = []; out = (s.at d).out ++ take (length xs) memory }
    sent = ap (λ l. send_first l.waiting memory l) line

read_from-cons :
    (c d : ℕ) (xs : Bytes) (rs : List (ℕ × Bytes))
    → read_from c ((d, xs) ∷ rs) ≡ (if d == c then xs else []) ++ read_from c rs
read_from-cons c d xs rs = elim (Bool-cases (d == c)) [
  | inl hit ↦ rw hit refl
  | inr miss ↦ rw miss refl
]

pub prompt_lem :
    (s : Lines) (rs : List (ℕ × Bytes))
    → IsIdle s
    → Fits s.msg_buf rs
    → (t : Lines) × (moments s (prompt rs) ≡ ok t)
      × ((c : ℕ) → (t.at c).out ≡ (s.at c).out ++ read_from c rs)
unfolding moments after_round after_send after_read
prompt_lem s [] idle h = (s, refl, λ c. sym (append-nil (s.at c).out))
prompt_lem s ((d, xs) ∷ rs) idle ((some_data, fit), h) =
    let round : (c : ℕ)
        → ((after_round s d xs).at c).waiting ≡ []
          × (((after_round s d xs).at c).out ≡ (s.at c).out ++ (if d == c then xs else [])) =
      λ c. after_round_lem s d xs c fit idle in
    let (t, e, all) =
      prompt_lem (after_round s d xs) rs (λ c. (round c).0) (filled-Fits s.msg_buf xs rs h) in
    (
      t,
      moments-reads s d xs (sends d ∷ prompt rs) some_data fit ∙ e,
      λ c.
          all c
          ∙ ap (λ ys. ys ++ read_from c rs) (round c).1
          ∙ append_assoc (s.at c).out (if d == c then xs else []) (read_from c rs)
          ∙ ap (λ ys. (s.at c).out ++ ys) (sym (read_from-cons c d xs rs)),
    )
