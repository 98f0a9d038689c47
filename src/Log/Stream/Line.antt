-- ===== src/Log/Stream/Line.antt =====
-- A line is put together from pieces of text and numbers.
pub mod Whole
use learnuv.Base.{
  ◌+◌, ◌^◌, ◌≤◌, ◌<◌, ◌≡◌, ◌⊎◌, Option, none, some, List, [], ◌∷◌, ◌++◌, Bytes, codes, length,
  Outcome, ok, ◌>>=◌, refl, ap, inl, inr, arith, leb, Bool-cases, leb→le, leb-false→lt,
}
use learnuv.Base.Int.{ℤ, magnitude}
use learnuv.Base.Decimal.{decimal}
use learnuv.Log.FixedBuffer.{
  append, IsValid, append_lem, avail, to_string, append_cases, avail_lem, formatted, formatted_lem,
}
use learnuv.Log.Stream.{LogStream, append_data, put_text, put_formatted, put_int}
use learnuv.Log.Stream.Convert.{convert-decimal}

pub data Piece : Type 0 where
  text : Option Bytes → Piece
  int : ℤ → Piece

-- `stream << a << b << …`
pub put_pieces : LogStream → List Piece → Outcome LogStream
put_pieces s [] = ok s
put_pieces s (text t ∷ ps) = put_pieces (put_text s t) ps
put_pieces s (int v ∷ ps) = put_int s v >>= (λ s'. put_pieces s' ps)

-- What a piece looks like; numbers have no sign.
abbrev pub rendered : Piece → Bytes
rendered (text (some t)) = t
rendered (text none) = codes "(null)"
rendered (int v) = decimal (magnitude v)

abbrev pub rendered_all : List Piece → Bytes
rendered_all [] = []
rendered_all (p ∷ ps) = rendered p ++ rendered_all ps

-- Numbers are `int`s.
abbrev pub IsPiece : Piece → Type 0
IsPiece (text t) = Unit {0}
IsPiece (int v) = magnitude v < 2 ^ 32

abbrev pub written : LogStream → Bytes
written s = to_string s.buffer

-- The step from `s` to `t` that adds `piece`, or nothing at all.
pub record Adds (s t : LogStream) (piece : Bytes) : Type 0 where
  pub valid : IsValid t.buffer
  pub size : length t.buffer.memory ≡ length s.buffer.memory
  pub all_or_nothing : (written t ≡ written s ++ piece) ⊎ (written t ≡ written s)
  pub all :
      s.buffer.cur + length piece + 32 ≤ length s.buffer.memory
      → (written t ≡ written s ++ piece) × (t.buffer.cur ≡ s.buffer.cur + length piece)

append-Adds :
    (s : LogStream) (piece : Bytes)
    → IsValid s.buffer
    → Adds s (record s { buffer = append s.buffer piece }) piece
append-Adds s piece v = record {
  valid = (append_lem s.buffer piece v).1;
  size = (append_lem s.buffer piece v).2;
  all_or_nothing = elim (append_cases s.buffer piece v) [
    | inl h ↦ inl h.1
    | inr h ↦ inr (ap to_string h.1)
  ];
  all = λ room. elim (append_cases s.buffer piece v) [
    | inl h ↦ (h.1, h.2)
    | inr h ↦ absurd (omega arith)
  ];
}

pub put_text-Adds :
    (s : LogStream) (t : Option Bytes)
    → IsValid s.buffer
    → Adds s (put_text s t) (rendered (text t))
unfolding put_text
put_text-Adds s (some t) v = append-Adds s t v
put_text-Adds s none v = append-Adds s (codes "(null)") v

pub append_data-Adds :
    (s : LogStream) (piece : Bytes) → IsValid s.buffer → Adds s (append_data s piece) piece
unfolding append_data
append_data-Adds s piece v = append-Adds s piece v

unchanged-Adds :
    (s : LogStream) (piece : Bytes)
    → IsValid s.buffer
    → length s.buffer.memory < s.buffer.cur + 32
    → Adds s s piece
unchanged-Adds s piece v h = record {
  valid = v;
  size = refl;
  all_or_nothing = inr refl;
  all = λ room. absurd (omega arith);
}

formatted-Adds :
    (s : LogStream) (piece : Bytes)
    → length piece ≤ 31
    → s.buffer.cur + 32 ≤ length s.buffer.memory
    → Adds s (record s { buffer = formatted s.buffer piece }) piece
formatted-Adds s piece short room =
    let (whole, at_end, size) = formatted_lem s.buffer piece (omega arith) in
    record {
      valid = omega (arith, at_end, size);
      size = size;
      all_or_nothing = inl whole;
      all = λ _. (whole, at_end);
    }

-- A formatted number or text of at most 31 bytes is added whole or not at all.
pub put_formatted-Adds :
    (s : LogStream) (piece : Bytes)
    → length piece ≤ 31
    → IsValid s.buffer
    → Adds s (put_formatted s piece) piece
unfolding put_formatted
put_formatted-Adds s piece short v = elim (Bool-cases (leb 32 (avail s.buffer))) [
  | inl room ↦
      rw room (formatted-Adds s piece short (omega (arith, avail_lem s.buffer, leb→le room)))
  | inr full ↦
      rw full (unchanged-Adds s piece v (omega (arith, avail_lem s.buffer, leb-false→lt full)))
]

pub put_int-Adds :
    (s : LogStream) (v : ℤ)
    → magnitude v < 2 ^ 32
    → IsValid s.buffer
    → (t : LogStream) × (put_int s v ≡ ok t) × Adds s t (decimal (magnitude v))
unfolding put_int
put_int-Adds s v h valid = elim (Bool-cases (leb 32 (avail s.buffer))) [
  | inl room ↦ (
    put_formatted s (decimal (magnitude v)),
    rw room (rw (convert-decimal v h).0),
    put_formatted-Adds s (decimal (magnitude v)) (omega (arith, (convert-decimal v h).2)) valid,
  )
  | inr full ↦ (
    s,
    rw full,
    unchanged-Adds s (decimal (magnitude v)) valid
        (omega (arith, avail_lem s.buffer, leb-false→lt full)),
  )
]
