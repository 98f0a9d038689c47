-- ===== src/Protobuf/Frame.antt =====
-- What stands in an encoded message.
use learnuv.Base.{
  replicate, ltb, true, ℕ, ◌+◌, ◌-◌, ◌^◌, ◌<◌, ◌≡◌, [], ◌∷◌, ◌++◌, Bytes, length, ◌%◌, refl, some,
  arith, take, drop, length-append, take_all, ok, sym, ap, ◌∙◌, none, suc, append_assoc,
  take-append_length, drop-append_length,
}
use learnuv.Base.Word.{be32, store32-htonl, be32_value, be32_value-be32}
use learnuv.Uv.{c_string, IsText, c_string-text}
use learnuv.Protobuf.{Message, named, encode, sealed, header_len}

-- The part that the length counts and, but for its last four bytes, the checksum covers.
abbrev pub covered : Bytes → Bytes → Bytes
covered name payload = be32 (length name + 1) ++ ((name ++ 0 ∷ []) ++ payload)

name_part : Bytes → Bytes
name_part name = replicate header_len 0 ++ (be32 (length name + 1) ++ (name ++ 0 ∷ []))

named-name_part :
    (m : Message) → length m.type_name + 1 < 2 ^ 31 → named m ≡ ok (name_part m.type_name)
unfolding named name_part
named-name_part m h = rw (small, below, store32-htonl (length m.type_name + 1), whole) refl
  where
    small : (length m.type_name + 1) % 2 ^ 32 ≡ length m.type_name + 1
    small = omega arith

    below : ltb (length m.type_name + 1) (2 ^ 31) ≡ true
    below = ground arith

    whole : take (length m.type_name + 1) (m.type_name ++ 0 ∷ []) ≡ m.type_name ++ 0 ∷ []
    whole =
        take_all (length m.type_name + 1) (m.type_name ++ 0 ∷ [])
          (omega (arith, length-append m.type_name (0 ∷ [])))

abbrev pub frame : (ℕ → Bytes → ℕ) → Bytes → Bytes → Bytes
frame adler32 name payload =
    (be32 (length (covered name payload) + 4) ++ covered name payload)
    ++ be32 (adler32 1 (covered name payload))

sealed-frame :
    (adler32 : ℕ → Bytes → ℕ) (c : Bytes)
    → length c + 4 < 2 ^ 32
    → sealed adler32 (0 ∷ 0 ∷ 0 ∷ 0 ∷ c) ≡ (be32 (length c + 4) ++ c) ++ be32 (adler32 1 c)
unfolding sealed
sealed-frame adler32 c h =
    rw (store32-htonl (adler32 1 c), counted, store32-htonl (length c + 4)) refl
  where
    counted :
        (suc (suc (suc (suc (length (c ++ be32 (adler32 1 c)))))) - header_len) % 2 ^ 32
        ≡ length c + 4
    counted = omega (arith, length-append c (be32 (adler32 1 c)))

length-covered :
    (name payload : Bytes) → length (covered name payload) ≡ 4 + (length name + 1 + length payload)
length-covered name payload =
    omega (arith, length-append (name ++ 0 ∷ []) payload, length-append name (0 ∷ []))

-- The bytes that `encode` returns.
encode-frame :
    (adler32 : ℕ → Bytes → ℕ) (m : Message) (payload : Bytes)
    → m.serialized ≡ some payload
    → length m.type_name + 1 < 2 ^ 31
    → length m.type_name + length payload + 13 < 2 ^ 32
    → encode adler32 m ≡ ok (frame adler32 m.type_name payload)
unfolding encode name_part
encode-frame adler32 m payload e short h = rw (named-name_part m short) (
    ap (λ o. ok (elim o [ none ↦ [] | some p ↦ sealed adler32 (name_part m.type_name ++ p) ])) e
    ∙ ap ok (
        sealed-frame adler32 (covered m.type_name payload)
          (omega (arith, length-covered m.type_name payload))))

frame_lem :
    (adler32 : ℕ → Bytes → ℕ) (name payload : Bytes)
    → ((start : ℕ) (bytes : Bytes) → adler32 start bytes < 2 ^ 32)
    → IsText name
    → length name + length payload + 13 < 2 ^ 32
    → let out = frame adler32 name payload in
      let last = length out - 4 in
      (be32_value out ≡ length (drop 4 out))
      × (be32_value (drop 4 out) ≡ length name + 1)
      × (c_string (drop 8 out) ≡ ok name)
      × (drop (length name + 9) (take last out) ≡ payload)
      × (be32_value (drop last out) ≡ adler32 1 (drop 4 (take last out)))
frame_lem adler32 name payload bounded text size = (
  be32_value-be32 (length c + 4) (c ++ be32 sum) (omega (arith, length-covered name payload))
      ∙ omega (arith, length-append c (be32 sum)),
  be32_value-be32 (length name + 1) (((name ++ 0 ∷ []) ++ payload) ++ be32 sum) (omega arith),
  ap c_string (
        append_assoc (name ++ 0 ∷ []) payload (be32 sum)
        ∙ append_assoc name (0 ∷ []) (payload ++ be32 sum))
      ∙ c_string-text name (payload ++ be32 sum) text,
  ap (drop (length name + 9)) front_is ∙ behind_name,
  ap be32_value last_is
      ∙ be32_value-be32 sum [] (bounded 1 c)
      ∙ ap (λ xs. adler32 1 (drop 4 xs)) (sym front_is),
)
  where
    c : Bytes
    c = covered name payload

    sum : ℕ
    sum = adler32 1 c

    front : Bytes
    front = be32 (length c + 4) ++ c

    last_eq : length (front ++ be32 sum) - 4 ≡ length front
    last_eq = omega (arith, length-append front (be32 sum))

    front_is : take (length (front ++ be32 sum) - 4) (front ++ be32 sum) ≡ front
    front_is = ap (λ n. take n (front ++ be32 sum)) last_eq ∙ take-append_length front (be32 sum)

    last_is : drop (length (front ++ be32 sum) - 4) (front ++ be32 sum) ≡ be32 sum
    last_is = ap (λ n. drop n (front ++ be32 sum)) last_eq ∙ drop-append_length front (be32 sum)

    size_eq :
        length name + 9
        ≡ length (be32 (length c + 4) ++ (be32 (length name + 1) ++ (name ++ 0 ∷ [])))
    size_eq = omega (arith, length-append name (0 ∷ []))

    behind_name : drop (length name + 9) front ≡ payload
    behind_name =
        ap (λ n. drop n front) size_eq
        ∙ drop-append_length (be32 (length c + 4) ++ (be32 (length name + 1) ++ (name ++ 0 ∷ [])))
            payload

-- A message that the library can serialize, whose type's name with its terminator is below 2 ^ 31
-- bytes and whose frame is below 2 ^ 32 bytes, is encoded so that a reader finds in turn the number
-- of the bytes behind the first four, the length of the name with its terminator, the name as a C
-- string and the serialized bytes, and in the last four bytes the checksum of all between the
-- length and itself. `adler32` is zlib's function, of which only is assumed that its result has 32
-- bits.
pub encode-frames :
    (adler32 : ℕ → Bytes → ℕ) (m : Message) (payload : Bytes)
    → ((start : ℕ) (bytes : Bytes) → adler32 start bytes < 2 ^ 32)
    → m.serialized ≡ some payload
    → IsText m.type_name
    → length m.type_name + 1 < 2 ^ 31
    → length m.type_name + length payload + 13 < 2 ^ 32
    → (out : Bytes) × (encode adler32 m ≡ ok out)
      × (be32_value out ≡ length (drop 4 out))
      × (be32_value (drop 4 out) ≡ length m.type_name + 1)
      × (c_string (drop 8 out) ≡ ok m.type_name)
      × (drop (length m.type_name + 9) (take (length out - 4) out) ≡ payload)
      × (be32_value (drop (length out - 4) out) ≡ adler32 1 (drop 4 (take (length out - 4) out)))
encode-frames adler32 m payload bounded e text short size =
    let (counted, named_size, name, body, checked) =
      frame_lem adler32 m.type_name payload bounded text size in
    (
      frame adler32 m.type_name payload,
      encode-frame adler32 m payload e short size,
      counted,
      named_size,
      name,
      body,
      checked,
    )
