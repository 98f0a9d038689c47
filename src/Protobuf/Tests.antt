-- ===== src/Protobuf/Tests.antt =====
-- The theorem about encoded messages at a concrete input.
use learnuv.Base.{
  ℕ, ◌+◌, ◌-◌, ◌%◌, ◌^◌, ◌<◌, ◌≡◌, refl, some, [], ◌∷◌, arith, Bytes, codes, length, take, drop, ok,
}
use learnuv.Base.Word.{be32_value}
use learnuv.Uv.{c_string, IsText}
use learnuv.Protobuf.{Message, encode}
use learnuv.Protobuf.Frame.{encode-frames}

-- In place of zlib's function: the sum of the bytes
abbrev byte_sum : ℕ → Bytes → ℕ
byte_sum start [] = start % 2 ^ 32
byte_sum start (b ∷ bytes) = byte_sum (start + b) bytes

byte_sum-lt : (start : ℕ) (bytes : Bytes) → byte_sum start bytes < 2 ^ 32
byte_sum-lt start [] = omega arith
byte_sum-lt start (b ∷ bytes) = byte_sum-lt (start + b) bytes

abbrev query : Message
query = record { type_name = codes "muduo.Query"; serialized = some (8 ∷ 1 ∷ []) }

query-IsText : IsText (codes "muduo.Query")
query-IsText = ground arith

encode-frames_example :
    (out : Bytes) × (encode byte_sum query ≡ ok out)
    × (be32_value out ≡ length (drop 4 out))
    × (be32_value (drop 4 out) ≡ 12)
    × (c_string (drop 8 out) ≡ ok (codes "muduo.Query"))
    × (drop 20 (take (length out - 4) out) ≡ 8 ∷ 1 ∷ [])
    × (be32_value (drop (length out - 4) out) ≡ byte_sum 1 (drop 4 (take (length out - 4) out)))
encode-frames_example =
    encode-frames byte_sum query (8 ∷ 1 ∷ []) byte_sum-lt refl query-IsText (omega arith)
      (omega arith)
