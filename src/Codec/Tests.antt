-- ===== src/Codec/Tests.antt =====
-- Runs of the codec, and its theorems at concrete inputs.
use learnuv.Base.{◌≡◌, refl, inl, inr, List, [], ◌∷◌, ◌++◌, arith, Bytes, codes, ok}
use learnuv.Base.Word.{be32}
use learnuv.Buffer.{Buffer, new}
use learnuv.Buffer.Inv.{IsValid, contents, new-IsValid}
use learnuv.Codec.{Codec, new_codec, on_message, encode}
use learnuv.Codec.Stream.{Decodes, framed}
use learnuv.Codec.Decode.{on_message-Decodes}
use learnuv.Codec.Feed.{feed, IsReady}
use learnuv.Codec.RoundTrip.{feed_any_cut, feed-frames, feed_refused, encode_lem}

abbrev small_codec : Codec
small_codec = record { buffer = new 64 }

abbrev small_codec-IsReady : IsReady small_codec
small_codec-IsReady = record { valid = new-IsValid 64 (omega arith); idle = inl (omega arith) }

-- An empty message at the end is held back.
empty_last_waits :
    (c : Codec) × (feed new_codec (framed [] ∷ []) ≡ ok ([], c))
    × IsReady c
    × (contents c.buffer ≡ be32 0)
empty_last_waits =
    feed-frames [] (framed [] ∷ []) (be32 0) tt (inl (omega arith)) refl (omega arith)

feed-frames_example :
    (c : Codec) × (feed new_codec ((0 ∷ 0 ∷ []) ∷ (0 ∷ 2 ∷ b'h' ∷ []) ∷ (b'i' ∷ 0 ∷ []) ∷ [])
      ≡ ok (codes "hi" ∷ [], c))
    × IsReady c
    × (contents c.buffer ≡ 0 ∷ [])
feed-frames_example =
    feed-frames (codes "hi" ∷ []) ((0 ∷ 0 ∷ []) ∷ (0 ∷ 2 ∷ b'h' ∷ []) ∷ (b'i' ∷ 0 ∷ []) ∷ [])
      (0 ∷ []) (omega arith) (inl (omega arith)) refl (omega arith)

feed_any_cut_example :
    (ms : List Bytes) × (d e : Codec) × (feed small_codec (framed (codes "hi") ∷ []) ≡ ok (ms, d))
    × (feed small_codec ((0 ∷ 0 ∷ 0 ∷ []) ∷ (2 ∷ codes "hi") ∷ []) ≡ ok (ms, e))
    × (contents d.buffer ≡ contents e.buffer)
feed_any_cut_example =
    feed_any_cut small_codec (framed (codes "hi") ∷ []) ((0 ∷ 0 ∷ 0 ∷ []) ∷ (2 ∷ codes "hi") ∷ [])
      small_codec-IsReady refl (omega arith)

-- Seven bytes: the frame of "hi" and the beginning of the next.
abbrev arrived : Buffer
arrived = record { buffer = framed (codes "hi") ++ 0 ∷ []; reader_index = 0; writer_index = 7 }

on_message-Decodes_example :
    (ms : List Bytes) × (c : Buffer) × (on_message arrived ≡ ok (ms, c))
    × IsValid c
    × Decodes (contents arrived) ms (contents c)
on_message-Decodes_example = on_message-Decodes arrived (omega arith)

-- A length of 4097, and a byte behind it.
abbrev refusing : Codec
refusing = record {
  buffer = record { buffer = 0 ∷ 0 ∷ 16 ∷ 1 ∷ 9 ∷ 0 ∷ 0 ∷ []; reader_index = 0; writer_index = 5 };
}

feed_refused_example :
    (d : Codec) × (feed refusing ((8 ∷ []) ∷ (7 ∷ []) ∷ []) ≡ ok ([], d))
    × (contents d.buffer ≡ 0 ∷ 0 ∷ 16 ∷ 1 ∷ 9 ∷ 8 ∷ 7 ∷ [])
feed_refused_example =
    feed_refused refusing ((8 ∷ []) ∷ (7 ∷ []) ∷ [])
      (record { valid = omega arith; idle = inr (inl (omega arith)) }) (omega arith) (omega arith)
      (omega arith)

encode_lem_run :
    (c : Buffer) × (encode (new 16) (codes "hi") ≡ ok (6, c))
    × IsValid c
    × (contents c ≡ 0 ∷ 0 ∷ 0 ∷ 2 ∷ codes "hi")
    × (c.reader_index ≡ 0)
    × (c.writer_index ≡ 6)
encode_lem_run =
    encode_lem {b = new 16} (codes "hi") (omega arith) (omega arith) (inl (omega arith))
