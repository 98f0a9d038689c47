-- ===== src/Codec.antt =====
-- chat/Codec.h and Codec.cpp: messages behind a four-byte length, over a byte stream.
-- The callback of `Codec` does not touch the codec's own buffer, so what it is called with is
-- returned: the list of the messages, in the order of the calls.
pub mod Stream
pub mod Decode
pub mod Feed
pub mod RoundTrip
pub mod Beginnings
mod Tests
use learnuv.Base.{
  ℕ, zero, suc, ◌+◌, ◌||◌, Option, none, some, List, [], ◌∷◌, Bytes, length, ltb, leb,
  if◌then◌else◌, out_of_fuel, Outcome, ok, fail, ◌>>=◌,
}
use learnuv.Base.Int.{ℤ, pos, ltb_ℤ, signed32, size_of}
use learnuv.Buffer.{
  Buffer, new, readable_bytes, retrieve_as_string, append, peek_uint32, retrieve_uint32,
  write_uint32,
}

abbrev pub header_len : ℕ
header_len = 4

abbrev pub max_message_size : ℕ
max_message_size = 4096

pub record Codec : Type 0 where
  pub buffer : Buffer

-- `Codec()`
abbrev pub new_codec : Codec
new_codec = record { buffer = new 8192 }

-- What the loop does with a length: `none` for `break`, and else the message and the buffer behind
-- it.
pub frame_of : Buffer → ℤ → Outcome (Option (Bytes × Buffer))
frame_of b len =
    if ltb_ℤ (pos max_message_size) len || ltb_ℤ len (pos 0)
    then ok none
    else if leb (size_of len + header_len) (readable_bytes b)
    then (do b' ← retrieve_uint32 b; r ← retrieve_as_string b' (size_of len); ok (some r))
    else ok none

-- One test of the loop's condition, with the round that follows it.
pub next_message : Buffer → Outcome (Option (Bytes × Buffer))
unfolding frame_of
next_message b =
    if ltb header_len (readable_bytes b)
    then (do len ← peek_uint32 b; frame_of b (signed32 len))
    else ok none

-- `onMessage`, with fuel for the rounds of its loop.
pub on_message_loop : ℕ → Buffer → Outcome (List Bytes × Buffer)
on_message_loop zero b = fail out_of_fuel
on_message_loop (suc fuel) b = next_message b >>= elim [
  | none ↦ ok ([], b)
  | some (msg, b') ↦ on_message_loop fuel b' >>= (λ r. ok (msg ∷ r.0, r.1))
]

-- Each round takes the header at least, so there are fewer rounds than readable bytes.
pub on_message : Buffer → Outcome (List Bytes × Buffer)
unfolding on_message_loop
on_message b = on_message_loop (readable_bytes b + 1) b

-- `on_uv_read(nread, buf)`; the list is the memory at `buf->base`.
pub on_uv_read : Codec → ℕ → Bytes → Outcome (List Bytes × Codec)
on_uv_read c nread base = do
  b ← append c.buffer base nread
  r ← on_message b
  ok (r.0, record c { buffer = r.1 })

-- `encode(buffer, msg)`: the argument is the text of the C string `msg`, without its terminator,
-- and the result the length of the frame. `int len = strlen(msg)` is exact below 2 ^ 31.
pub encode : Buffer → Bytes → Outcome (ℕ × Buffer)
encode b msg = do
  b' ← write_uint32 b (length msg)
  b'' ← append b' msg (length msg)
  ok (length msg + header_len, b'')
