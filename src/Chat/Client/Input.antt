-- ===== src/Chat/Client/Input.antt =====
-- What the chat client sends for a line.
use learnuv.Base.{
  ℕ, ◌+◌, ◌^◌, ◌≤◌, ◌<◌, ◌≡◌, ap, ◌∙◌, inr, [], ◌∷◌, ◌++◌, arith, Bytes, length, take,
  length-append, length-take, take_all, take-append, out_of_range, ok, fail,
}
use learnuv.Buffer.{max_size, peek}
use learnuv.Buffer.Inv.{IsValid, contents}
use learnuv.Buffer.Retrieve.{take-peek}
use learnuv.Codec.Stream.{framed}
use learnuv.Codec.RoundTrip.{encode_lem}
use learnuv.Uv.{count, IsText, c_string-text}
use learnuv.Chat.Client.{Client, send_raw_content, on_read_stdin}

send_raw_content_long :
    (mem : Bytes) (len done : ℕ) → 1024 < len → send_raw_content mem len done ≡ fail out_of_range
unfolding send_raw_content
send_raw_content_long mem len done h = ground arith

send_raw_content_fits :
    (mem : Bytes) (len done : ℕ)
    → len ≤ length mem
    → len ≤ 1024
    → send_raw_content mem len done ≡ ok (record { bytes = take len mem; done = done })
unfolding send_raw_content
send_raw_content_fits mem len done h k = ground arith

-- The client between two events: nothing was read from the buffer of frames.
pub record IsWell (c : Client) : Type 0 where
  pub valid : IsValid c.buffer
  pub unread : c.buffer.reader_index ≡ 0

module _ (c : Client) (n : ℕ) (m rest : Bytes) (w : IsWell c) (text : IsText m)
    (small : length m < 2 ^ 31) (room : c.buffer.writer_index + 4 + length m ≤ max_size) where
  -- A line `m`, read as `n + 1` bytes with a zero byte behind it: what is sent are the oldest bytes
  -- of the buffer, as many as the frame of the line has. If these are more than 1024, the copy to
  -- the send buffer runs out of it.
  pub on_read_stdin_lem :
      (length m + 4 ≤ 1024
        → (c' : Client) × (on_read_stdin c (count n) (m ++ 0 ∷ rest)
            ≡ ok (
              record { bytes = take (length m + 4) (contents c.buffer ++ framed m); done = 1 } ∷ [],
              c',
            ))
          × IsWell c'
          × (contents c'.buffer ≡ contents c.buffer ++ framed m)
          × (c'.buffer.writer_index ≡ c.buffer.writer_index + 4 + length m))
      × (1024 < length m + 4 → on_read_stdin c (count n) (m ++ 0 ∷ rest) ≡ fail out_of_range)
  unfolding on_read_stdin
  on_read_stdin_lem =
      let (b, encoded, vb, holds, same, at_end) =
        encode_lem m w.valid small (inr (w.unread, room)) in
      let enough : length m + 4 ≤ length (contents b) =
        omega (arith, ap length holds, length-append (contents c.buffer) (framed m)) in
      let seen = take-peek (length m + 4) vb enough in
      (
        (λ fits. (
          record c { buffer = b },
          rw (c_string-text m rest text) (
              rw encoded (
                rw
                  (send_raw_content_fits (peek b) (length m + 4) 1
                    (omega (
                      arith,
                      ap length seen,
                      length-take (length m + 4) (peek b),
                      length-take (length m + 4) (contents b),
                    ))
                    fits)
                  (ap (λ xs. ok (record { bytes = xs; done = 1 } ∷ [], record c { buffer = b }))
                    (seen ∙ ap (take (length m + 4)) holds)))),
          record { valid = vb; unread = same ∙ w.unread },
          holds,
          at_end,
        )),
        λ long.
            rw (c_string-text m rest text)
              (rw encoded (rw (send_raw_content_long (peek b) (length m + 4) 1 long))),
      )

-- The first line that fits is sent as its frame, and a next one that is no longer as the beginning
-- of the first frame again.
pub stdin_repeats :
    (c : Client) (n n' : ℕ) (m m' rest rest' : Bytes)
    → IsWell c
    → contents c.buffer ≡ []
    → IsText m
    → IsText m'
    → length m + 4 ≤ 1024
    → length m' ≤ length m
    → c.buffer.writer_index ≤ 1024
    → (d e : Client) × (on_read_stdin c (count n) (m ++ 0 ∷ rest)
        ≡ ok (record { bytes = framed m; done = 1 } ∷ [], d))
      × (on_read_stdin d (count n') (m' ++ 0 ∷ rest')
          ≡ ok (record { bytes = take (length m' + 4) (framed m); done = 1 } ∷ [], e))
stdin_repeats c n n' m m' rest rest' w empty text text' small shorter low =
    let (d, first, wd, holds, at_end) =
      (on_read_stdin_lem c n m rest w text (omega arith) (omega arith)).0 small in
    let (e, second, _, _, _) =
      (on_read_stdin_lem d n' m' rest' wd text' (omega arith) (omega arith)).0 (omega arith) in
    (
      d,
      e,
      first
          ∙ ap (λ xs. ok (record { bytes = xs; done = 1 } ∷ [], d))
              (ap (λ xs. take (length m + 4) (xs ++ framed m)) empty
                ∙ take_all (length m + 4) (framed m) (omega arith)),
      second
          ∙ ap (λ xs. ok (record { bytes = xs; done = 1 } ∷ [], e))
              (ap (λ xs. take (length m' + 4) (xs ++ framed m'))
                  (holds ∙ ap (λ xs. xs ++ framed m) empty)
                ∙ take-append (length m' + 4) (framed m) (framed m') (omega arith)),
    )
