-- ===== src/Protobuf.antt =====
-- codec_test/protobuf_codec.h: a protobuf message with its type's name, a length and a checksum.
pub mod Frame
mod Tests
use learnuv.Base.{
  Outcome, ok, require, length_error, ltb, ◌>>=◌, ◌>>◌, ℕ, ◌+◌, ◌-◌, ◌%◌, ◌^◌, Option, none, some,
  [], ◌∷◌, ◌++◌, Bytes, length, take, drop, replicate, overwrite,
}
use learnuv.Base.Word.{store32, htonl}

-- What the code uses of a `google::protobuf::Message`: `GetTypeName()`, and the bytes that
-- `AppendToString` adds, or `none` where it fails.
pub record Message : Type 0 where
  pub type_name : Bytes
  pub serialized : Option Bytes

-- `kHeaderLen`
abbrev pub header_len : ℕ
header_len = 4

-- `result` in front of the message: room for the length, then the length of the name and the name
-- with its terminator. The `int32_t` keeps 32 bits of the size; from 2 ^ 31 on it is negative,
-- which `append` takes for a length that no string can have.
pub named : Message → Outcome Bytes
named m = do
  let name_len = (length m.type_name + 1) % 2 ^ 32
  require (ltb name_len (2 ^ 31)) length_error
  ok (replicate header_len 0 ++ (store32 (htonl name_len) ++ take name_len (m.type_name ++ 0 ∷ [])))

-- The checksum goes behind the result, and the length into its first four bytes.
pub sealed : (ℕ → Bytes → ℕ) → Bytes → Bytes
sealed adler32 result =
    let check_sum = adler32 1 (drop header_len result) in
    let whole = result ++ store32 (htonl check_sum) in
    overwrite 0 (store32 (htonl ((length whole - header_len) % 2 ^ 32))) whole

-- `encode(message)`, where `adler32` is zlib's function
pub encode : (ℕ → Bytes → ℕ) → Message → Outcome Bytes
encode adler32 m = do
  result ← named m
  ok (elim m.serialized [ none ↦ [] | some payload ↦ sealed adler32 (result ++ payload) ])

-- `createMessage(type_name)`, by what the pool and the factory of the library answer
pub create_message {ℓ κ} :
    {Descriptor : Type ℓ} {Prototype : Type κ}
    → (Bytes → Option Descriptor)
    → (Descriptor → Option Prototype)
    → Bytes
    → Option Prototype
create_message find get_prototype type_name = elim (find type_name) [
  | none ↦ none
  | some descriptor ↦ elim (get_prototype descriptor) [
    | none ↦ none
    | some prototype ↦ some prototype
  ]
]
