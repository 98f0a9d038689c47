-- ===== src/Pingpong/Client/Answers.antt =====
-- What the client of the ping-pong game answers.
use native.Mathlib.Nat.{mul-suc}
use learnuv.Base.{
  ℕ, zero, suc, ◌+◌, ◌*◌, ◌<◌, ◌≡◌, refl, ap, List, [], ◌∷◌, ◌++◌, arith, Bytes, length, All,
  length-append, Outcome, ok, ◌>>=◌,
}
use learnuv.Base.Int.{pos}
use learnuv.Uv.{count}
use learnuv.Pingpong.Client.{Connection, Client, Action, posted, add_read, on_read_data, sum_read}

-- The client's reads of connection `i`: the bytes, and what stands behind them in the memory that
-- libuv was given.
abbrev pub Arrival : Type 0
Arrival = Bytes × Bytes

pub answer_all : Client → ℕ → List Arrival → Outcome (List Action × Client)
answer_all c i [] = ok ([], c)
answer_all c i ((x, rest) ∷ xs) = do
  r ← on_read_data c i (count (length x)) (x ++ rest) (pos 0)
  r' ← answer_all r.1 i xs
  ok (r.0 ++ r'.0, r'.1)

abbrev pub arrived : List Arrival → Bytes
arrived [] = []
arrived ((x, rest) ∷ xs) = x ++ arrived xs

abbrev pub answered : List Action → Bytes
answered [] = []
answered (posted bytes ∷ as') = bytes ++ answered as'
answered (_ ∷ as') = answered as'

-- The whole buffer of each read
abbrev pub whole_buffers : List Arrival → Bytes
whole_buffers [] = []
whole_buffers ((x, rest) ∷ xs) = (x ++ rest) ++ whole_buffers xs

-- Every buffer has the size that libuv suggests, and every read has data.
abbrev pub HasSize : ℕ → List Arrival → Type 0
HasSize suggested = All (λ a. (0 < length a.0) × (length (a.0 ++ a.1) ≡ suggested))

sum_read-add_read :
    (xs : List Connection) (i n : ℕ)
    → i < length xs
    → (sum_read (add_read xs i n) ≡ sum_read xs + n) × (length (add_read xs i n) ≡ length xs)
unfolding sum_read add_read
sum_read-add_read [] i n h = absurd (omega arith)
sum_read-add_read (x ∷ xs) zero n h = (omega arith, refl)
sum_read-add_read (x ∷ xs) (suc i) n h =
    let (sums, same) = sum_read-add_read xs i n (omega arith) in (omega (arith, sums), ap suc same)

on_read_data-posted :
    (c : Client) (i : ℕ) (x rest : Bytes)
    → 0 < length x
    → on_read_data c i (count (length x)) (x ++ rest) (pos 0)
      ≡ ok (posted (x ++ rest) ∷ [], record c { connections = add_read c.connections i (length x) })
unfolding on_read_data
on_read_data-posted c i [] rest h = absurd (omega arith)
on_read_data-posted c i (b ∷ x) rest h = refl

pub answer_all_lem :
    (c : Client) (i suggested : ℕ) (xs : List Arrival)
    → i < length c.connections
    → HasSize suggested xs
    → (out : List Action) × (d : Client) × (answer_all c i xs ≡ ok (out, d))
      × (sum_read d.connections ≡ sum_read c.connections + length (arrived xs))
      × (answered out ≡ whole_buffers xs)
      × (length (answered out) ≡ suggested * length xs)
unfolding answer_all
answer_all_lem c i suggested [] lt h = ([], c, refl, omega arith, refl, omega arith)
answer_all_lem c i suggested ((x, rest) ∷ xs) lt (fit, h) =
    let (sums, same) = sum_read-add_read c.connections i (length x) lt in
    let (out, d, e, more, posts, size) =
      answer_all_lem (record c { connections = add_read c.connections i (length x) }) i suggested xs
        (omega (arith, same)) h in
    (
      posted (x ++ rest) ∷ out,
      d,
      rw (on_read_data-posted c i x rest fit.0) (rw e refl),
      omega (arith, more, sums, length-append x (arrived xs)),
      ap (λ ys. (x ++ rest) ++ ys) posts,
      omega (
        arith,
        size,
        fit.1,
        length-append (x ++ rest) (answered out),
        mul-suc suggested (length {A = Arrival} xs),
      ),
    )
