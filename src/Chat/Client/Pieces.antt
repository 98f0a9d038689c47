-- ===== src/Chat/Client/Pieces.antt =====
-- The client's `test` function: a frame goes out two bytes at a time.
use native.Mathlib.Decide.{dec_le}
use learnuv.Base.{
  ℕ, zero, suc, ◌+◌, ◌-◌, ◌≤◌, ◌≡◌, sym, ap, ◌∙◌, List, [], ◌∷◌, ◌++◌, arith, Bytes, length, take,
  drop, concat, All, length-take, length-drop, drop_all, window_split, Outcome, ok, ◌<◌, refl, inr,
  append-nil, take_all, take-drop-take, inl,
}
use learnuv.Buffer.{peek}
use learnuv.Buffer.Inv.{new-IsValid}
use learnuv.Buffer.Retrieve.{take-peek}
use learnuv.Codec.{Codec, new_codec}
use learnuv.Codec.Stream.{framed}
use learnuv.Codec.Feed.{feed}
use learnuv.Codec.RoundTrip.{encode_lem, feed-frames}
use learnuv.Chat.Client.{Sent, send_raw_content, test_loop, Client, test, start}

abbrev pub sent_bytes : List Sent → List Bytes
sent_bytes [] = []
sent_bytes (s ∷ ss) = s.bytes ∷ sent_bytes ss

send_raw_content_ok :
    (mem : Bytes) (len done : ℕ)
    → len ≤ length mem
    → len ≤ 1024
    → send_raw_content mem len done ≡ ok (record { bytes = take len mem; done = done })
unfolding send_raw_content
send_raw_content_ok mem len done h k = ground arith

-- The pieces of one pass of the loop from index `i`.
record Cut (mem : Bytes) (n i : ℕ) (out : Outcome (List Sent)) : Type 0 where
  pieces : List Sent
  returns : out ≡ ok pieces
  whole : concat (sent_bytes pieces) ≡ drop i (take n mem)
  small : All (λ s. length s ≤ 2) (sent_bytes pieces)

module _ (mem : Bytes) (n : ℕ) (long : n ≤ length mem) where
  test_loop_end : (fuel i : ℕ) → n ≤ i → test_loop fuel mem n i ≡ ok []
  unfolding test_loop
  test_loop_end zero i h = ground arith
  test_loop_end (suc fuel) i h = ground arith

  Cut-end : (fuel i : ℕ) → n ≤ i → Cut mem n i (test_loop fuel mem n i)
  Cut-end fuel i h = record {
    pieces = [];
    returns = test_loop_end fuel i h;
    whole = sym (drop_all i (take n mem) (omega (arith, length-take n mem)));
    small = tt;
  }

  Cut-last : (fuel i : ℕ) → suc i ≡ n → Cut mem n i (test_loop (suc fuel) mem n i)
  unfolding test_loop
  Cut-last fuel i h = record {
    pieces = record { bytes = take (n - i) (drop i mem); done = 1 } ∷ [];
    returns = ground (
      arith,
      send_raw_content_ok (drop i mem) (n - i) 1,
      test_loop_end fuel (i + 2) (omega arith),
      length-drop i mem,
    );
    whole =
        append-nil (take (n - i) (drop i mem))
        ∙ sym (take-drop-take i (n - i) n mem (omega arith))
        ∙ take_all (n - i) (drop i (take n mem))
            (omega (arith, length-drop i (take n mem), length-take n mem));
    small = (omega (arith, length-take (n - i) (drop i mem)), tt);
  }

  Cut-next :
      (fuel i : ℕ)
      → i + 2 ≤ n
      → Cut mem n (i + 2) (test_loop fuel mem n (i + 2))
      → Cut mem n i (test_loop (suc fuel) mem n i)
  unfolding test_loop
  Cut-next fuel i h c = record {
    pieces = record { bytes = take 2 (drop i mem); done = 0 } ∷ c.pieces;
    returns = ground (arith, send_raw_content_ok (drop i mem) 2 0, c.returns, length-drop i mem);
    whole = ap (λ xs. take 2 (drop i mem) ++ xs) c.whole ∙ sym (window_split i 2 n mem h);
    small = (omega (arith, length-take 2 (drop i mem)), c.small);
  }

  Cut-from : (fuel i : ℕ) → n ≤ fuel + i → Cut mem n i (test_loop fuel mem n i)
  Cut-from zero i h = Cut-end zero i (omega arith)
  Cut-from (suc fuel) i h = elim (dec_le n i) [
    | yes over ↦ Cut-end (suc fuel) i over
    | no more ↦ elim (dec_le (i + 2) n) [
      | yes two ↦ Cut-next fuel i two (Cut-from fuel (i + 2) (omega arith))
      | no one ↦ Cut-last fuel i (omega arith)
    ]
  ]

-- The first `test` of a client, with a non-empty text of at most 4096 bytes, asks to send the frame
-- in pieces of at most two bytes, and a new codec that is fed these pieces calls back once, with
-- the text. (What becomes of pieces that wait in the shared memory is not part of this.)
pub test-feed :
    (m : Bytes)
    → 0 < length m
    → length m ≤ 4096
    → (ss : List Sent) × (c : Client) × (d : Codec) × (test start m ≡ ok (ss, c))
      × (concat (sent_bytes ss) ≡ framed m)
      × All (λ s. length s ≤ 2) (sent_bytes ss)
      × (feed new_codec (sent_bytes ss) ≡ ok (m ∷ [], d))
unfolding test
test-feed m some_text small =
    let (b, encoded, vb, holds, _, _) =
      encode_lem m (new-IsValid 1024 (omega arith)) (omega arith) (inr (refl, omega arith)) in
    let n = length m + 4 in
    let seen =
      take-peek n vb (omega (arith, ap length holds))
      ∙ ap (take n) holds
      ∙ take_all n (framed m) (omega arith) in
    let c =
      Cut-from (peek b) n (omega (arith, ap length seen, length-take n (peek b))) n 0
        (omega arith) in
    let whole = c.whole ∙ seen in
    let alone = append-nil (framed m ++ []) ∙ append-nil (framed m) in
    let (d, fed, _, _) =
      feed-frames (m ∷ []) (sent_bytes c.pieces) [] (small, omega arith, tt) (inl (omega arith))
        (whole ∙ sym alone) (omega (arith, ap (length {A = ℕ}) alone)) in
    (c.pieces, record start { buffer = b }, d, rw encoded (rw c.returns), whole, c.small, fed)
