-- ===== src/Pingpong/Round.antt =====
-- A round of the game: the client's bytes go to the server and come back.
use learnuv.Base.{
  ℕ, ◌+◌, ◌*◌, ◌<◌, ◌≡◌, refl, ap, ◌∙◌, List, [], ◌∷◌, arith, Bytes, length, concat, ok,
}
use learnuv.Pingpong.Server.{Reply, serve, serve_lem, written_to, read_from, Fits}
use learnuv.Pingpong.Client.{Client, Action, sum_read}
use learnuv.Pingpong.Client.Answers.{
  Arrival, answer_all, arrived, answered, whole_buffers, HasSize, answer_all_lem,
}

-- The server's reads of one connection
abbrev pub reads_of : ℕ → List Bytes → List (ℕ × Bytes)
reads_of conn [] = []
reads_of conn (x ∷ xs) = (conn, x) ∷ reads_of conn xs

read_from-reads_of : (conn : ℕ) (xs : List Bytes) → read_from conn (reads_of conn xs) ≡ concat xs
read_from-reads_of conn [] = refl
read_from-reads_of conn (x ∷ xs) = ground (arith, read_from-reads_of conn xs)

-- The bytes of a client come back from the server unchanged, however the server's reads are cut, if
-- each read fits the server's buffer and the server's write for it is sent before the next read;
-- and the client counts each of them once. But the client answers every one of its reads with the
-- whole of the buffer that libuv suggested: the bytes that were read and whatever stands behind
-- them.
pub round_lem :
    (msg_buf : Bytes) (conn : ℕ) (sent : List Bytes) (c : Client) (i suggested : ℕ)
    (back : List Arrival)
    → Fits msg_buf (reads_of conn sent)
    → arrived back ≡ concat sent
    → i < length c.connections
    → HasSize suggested back
    → (rs : List Reply) × (serve msg_buf (reads_of conn sent) ≡ ok rs)
      × (written_to conn rs ≡ concat sent)
      × ((out : List Action) × (d : Client) × (answer_all c i back ≡ ok (out, d))
          × (sum_read d.connections ≡ sum_read c.connections + length (concat sent))
          × (answered out ≡ whole_buffers back)
          × (length (answered out) ≡ suggested * length back))
round_lem msg_buf conn sent c i suggested back fits whole lt sized =
    let (rs, e, same) = serve_lem msg_buf (reads_of conn sent) fits in
    let (out, d, e', sums, posts, size) = answer_all_lem c i suggested back lt sized in
    (
      rs,
      e,
      same conn ∙ read_from-reads_of conn sent,
      (out, d, e', omega (arith, sums, ap length whole), posts, size),
    )
