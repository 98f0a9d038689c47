-- ===== src/Codec/Decode.antt =====
-- `Codec::onMessage` reads the stream as `Decodes` says.
use learnuv.Base.{
  ℕ, zero, suc, ◌+◌, ◌≤◌, ◌<◌, ◌≡◌, refl, ap, subst, ◌∙◌, inl, inr, none, some, List, [], ◌∷◌,
  arith, Bytes, length, drop, length-drop, Outcome, ok,
}
use learnuv.Base.Word.{be32_value, be32_value-lt}
use learnuv.Buffer.{Buffer, readable_bytes}
use learnuv.Buffer.Inv.{IsValid, contents, readable_bytes-length}
use learnuv.Buffer.Retrieve.{
  retrieved, retrieved-IsValid, contents-retrieved, retrieve_as_string_ok, retrieve_uint32_ok,
  retrieved_memory,
}
use learnuv.Buffer.Words.{peek_uint32_ok}
use learnuv.Codec.{frame_of, next_message, on_message_loop, on_message}
use learnuv.Codec.Stream.{
  IsFrame, IsPending, IsPending-or-IsFrame, message, behind, Decodes, pending, frame,
}

-- The buffer behind a whole message.
abbrev behind_message : Buffer → Buffer
behind_message b = retrieved (retrieved b 4) (be32_value (contents b))

module _ {b : Buffer} (v : IsValid b) where
  next_message_pending : IsPending (contents b) → next_message b ≡ ok none
  unfolding next_message frame_of
  next_message_pending p =
      ground (arith, readable_bytes-length v, peek_uint32_ok v, be32_value-lt (contents b))

  next_message_frame :
      IsFrame (contents b) → next_message b ≡ ok (some (message (contents b), behind_message b))
  unfolding next_message frame_of
  next_message_frame f = ground (
    arith,
    readable_bytes-length v,
    peek_uint32_ok v,
    retrieve_uint32_ok v,
    contents-retrieved b 4,
    retrieve_as_string_ok (be32_value (contents b)) (retrieved-IsValid 4 v),
    length-drop 4 (contents b),
  )

  contents-behind : IsFrame (contents b) → contents (behind_message b) ≡ behind (contents b)
  contents-behind f =
      let e = contents-retrieved b 4 (omega arith) in
      contents-retrieved (retrieved b 4) (be32_value (contents b))
        (omega (arith, ap length e, length-drop 4 (contents b)))
      ∙ ap (drop (be32_value (contents b))) e

  behind-IsValid : IsValid (behind_message b)
  behind-IsValid = retrieved-IsValid _ (retrieved-IsValid 4 v)

-- How reading the messages of a buffer ends.
pub record Decoded (b : Buffer) (out : Outcome (List Bytes × Buffer)) : Type 0 where
  pub messages : List Bytes
  pub left : Buffer
  pub returns : out ≡ ok (messages, left)
  pub valid : IsValid left
  pub reads : Decodes (contents b) messages (contents left)
  pub memory : left.buffer ≡ b.buffer
  pub no_further : left.writer_index ≤ b.writer_index

loop_end :
    (fuel : ℕ) (b : Buffer)
    → IsValid b
    → IsPending (contents b)
    → Decoded b (on_message_loop (suc fuel) b)
unfolding on_message_loop
loop_end fuel b v p = record {
  messages = [];
  left = b;
  returns = rw (next_message_pending v p, on_message_loop);
  valid = v;
  reads = pending p;
  memory = refl;
  no_further = omega arith;
}

loop_round :
    (fuel : ℕ) (b : Buffer)
    → IsValid b
    → IsFrame (contents b)
    → Decoded (behind_message b) (on_message_loop fuel (behind_message b))
    → Decoded b (on_message_loop (suc fuel) b)
unfolding on_message_loop
loop_round fuel b v f d = record {
  messages = message (contents b) ∷ d.messages;
  left = d.left;
  returns = rw (next_message_frame v f, on_message_loop) (rw d.returns);
  valid = d.valid;
  reads =
      frame f (subst (λ s. Decodes s d.messages (contents d.left)) (contents-behind v f) d.reads);
  memory = ground (
    arith,
    d.memory,
    retrieved_memory (retrieved b 4) (be32_value (contents b)),
    retrieved_memory b 4,
  );
  no_further = omega (
    arith,
    d.no_further,
    (retrieved_memory (retrieved b 4) (be32_value (contents b))).1,
    (retrieved_memory b 4).1,
  );
}

pub on_message_loop_lem :
    (fuel : ℕ) (b : Buffer)
    → IsValid b
    → length (contents b) < fuel
    → Decoded b (on_message_loop fuel b)
on_message_loop_lem zero b v h = absurd (omega arith)
on_message_loop_lem (suc fuel) b v h = elim (IsPending-or-IsFrame (contents b)) [
  | inl p ↦ loop_end fuel b v p
  | inr f ↦ loop_round fuel b v f (
      on_message_loop_lem fuel (behind_message b) (behind-IsValid v) (
        omega (
          arith,
          ap length (contents-behind v f),
          length-drop (be32_value (contents b)) (drop 4 (contents b)),
          length-drop 4 (contents b),
        )))
]

-- On a valid buffer `onMessage` always comes back: it calls back for the messages that `Decodes`
-- reads from the buffer's bytes, in order, and leaves a valid buffer that holds the rest.
pub on_message-Decodes :
    (b : Buffer)
    → IsValid b
    → (ms : List Bytes) × (c : Buffer) × (on_message b ≡ ok (ms, c))
      × IsValid c
      × Decodes (contents b) ms (contents c)
unfolding on_message
on_message-Decodes b v =
    let d =
      on_message_loop_lem (readable_bytes b + 1) b v (omega (arith, readable_bytes-length v)) in
    (d.messages, d.left, d.returns, d.valid, d.reads)
