-- ===== src/Log/Stream/Line/Whole.antt =====
-- What a line holds in the end, once its pieces are put on a stream (common/log/LogStream.h)
use learnuv.Base.{
  ◌+◌, ◌≤◌, ◌≡◌, refl, sym, ap, subst, ◌∙◌, List, [], ◌∷◌, ◌++◌, append-nil, append_assoc, arith,
  Bytes, length, All, length-append, Outcome, ok, ◌>>=◌,
}
use learnuv.Base.Int.{magnitude}
use learnuv.Base.Decimal.{decimal}
use learnuv.Log.FixedBuffer.{IsValid}
use learnuv.Log.Stream.{LogStream, put_text}
use learnuv.Log.Stream.Line.{
  Piece, text, int, put_pieces, rendered, rendered_all, IsPiece, written, Adds, put_text-Adds,
  put_int-Adds,
}

-- How putting pieces on a stream ends.
pub record Put (s : LogStream) (bytes : Bytes) (out : Outcome LogStream) : Type 0 where
  pub stream : LogStream
  pub returns : out ≡ ok stream
  pub valid : IsValid stream.buffer
  pub size : length stream.buffer.memory ≡ length s.buffer.memory
  pub all :
      s.buffer.cur + length bytes + 32 ≤ length s.buffer.memory
      → (written stream ≡ written s ++ bytes) × (stream.buffer.cur ≡ s.buffer.cur + length bytes)

pub Put-next :
    (s t : LogStream) (piece rest : Bytes) {out : Outcome LogStream}
    → Adds s t piece
    → Put t rest out
    → Put s (piece ++ rest) out
Put-next s t piece rest a p = record {
  stream = p.stream;
  returns = p.returns;
  valid = p.valid;
  size = p.size ∙ a.size;
  all = λ room.
      let (whole, at_end) = a.all (omega (arith, length-append piece rest)) in
      let (more, last) = p.all (omega (arith, length-append piece rest, a.size)) in
      (
        more ∙ ap (λ xs. xs ++ rest) whole ∙ append_assoc (written s) piece rest,
        omega (arith, length-append piece rest),
      );
}

pub Put-end : (s : LogStream) → IsValid s.buffer → Put s [] (ok s)
Put-end s v = record {
  stream = s;
  returns = refl;
  valid = v;
  size = refl;
  all = λ _. (sym (append-nil (written s)), omega arith);
}

pub Put-trans :
    (s : LogStream) (a b : Bytes) {out out' : Outcome LogStream} (p : Put s a out)
    → Put p.stream b out'
    → Put s (a ++ b) out'
Put-trans s a b p q = record {
  stream = q.stream;
  returns = q.returns;
  valid = q.valid;
  size = q.size ∙ p.size;
  all = λ room.
      let (whole, at_end) = p.all (omega (arith, length-append a b)) in
      let (more, last) = q.all (omega (arith, length-append a b, p.size)) in
      (
        more ∙ ap (λ xs. xs ++ b) whole ∙ append_assoc (written s) a b,
        omega (arith, length-append a b),
      );
}

pub put_pieces-Put :
    (s : LogStream) (ps : List Piece)
    → IsValid s.buffer
    → All IsPiece ps
    → Put s (rendered_all ps) (put_pieces s ps)
unfolding put_pieces
put_pieces-Put s [] v h = record {
  stream = s;
  returns = refl;
  valid = v;
  size = refl;
  all = λ _. (sym (append-nil (written s)), omega arith);
}
put_pieces-Put s (text t ∷ ps) v h =
    let a = put_text-Adds s t v in
    Put-next s (put_text s t) (rendered (text t)) (rendered_all ps) a
      (put_pieces-Put (put_text s t) ps a.valid h.1)
put_pieces-Put s (int z ∷ ps) v h =
    let (t, e, a) = put_int-Adds s z h.0 v in
    subst (λ m. Put s (decimal (magnitude z) ++ rendered_all ps) (m >>= (λ s'. put_pieces s' ps)))
      (sym e)
      (Put-next s t (decimal (magnitude z)) (rendered_all ps) a (put_pieces-Put t ps a.valid h.1))

-- Putting any pieces, whose numbers are `int`s, on a valid stream always returns and never fills or
-- overruns the buffer; if all of them fit with 32 bytes to spare, exactly their texts are appended,
-- in order.
pub put_pieces_lem :
    (s : LogStream) (ps : List Piece)
    → IsValid s.buffer
    → All IsPiece ps
    → (t : LogStream) × (put_pieces s ps ≡ ok t)
      × IsValid t.buffer
      × (s.buffer.cur + length (rendered_all ps) + 32 ≤ length s.buffer.memory
          → written t ≡ written s ++ rendered_all ps)
put_pieces_lem s ps v h =
    let p = put_pieces-Put s ps v h in (p.stream, p.returns, p.valid, λ room. (p.all room).0)
