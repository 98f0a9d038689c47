-- ===== src/Log/Logger/Output.antt =====
-- What a log statement writes.
use learnuv.Base.{
  ℕ, ◌+◌, ◌^◌, ◌<◌, ◌≡◌, refl, subst, some, [], ◌++◌, append-nil, arith, Bytes, codes, length,
  Outcome, ok, ◌≤◌, List, All, ap, ◌∙◌,
}
use learnuv.Base.Int.{pos}
use learnuv.Base.Decimal.{decimal}
use learnuv.Log.FixedBuffer.{fresh, IsValid, to_string, to_string-le, to_string-fresh}
use learnuv.Log.Stream.{LogStream, append_data, put_text}
use learnuv.Log.Stream.Line.{
  put_text-Adds, append_data-Adds, put_int-Adds, Piece, rendered_all, IsPiece, put_pieces,
}
use learnuv.Log.Stream.Line.Whole.{Put, Put-next, Put-end, Put-trans, put_pieces-Put}
use learnuv.Log.Logger.{
  LogLevel, trace, debug, info, warn, error, fatal, log_level_name, put_known, SourceFile,
  source_file, file_text, format_time, Impl, impl, finish, log_line,
}

-- Behind the caller's pieces.
abbrev pub trailer : Bytes → ℕ → Bytes
trailer arr line =
    codes " - " ++ (file_text (source_file arr) ++ (codes ":" ++ (decimal line ++ codes "\n")))

-- The whole line: time, level, the caller's pieces, file and line number.
abbrev pub whole_line : LogLevel → Bytes → ℕ → Bytes → ℕ → List Piece → Bytes
whole_line level arr line date micros pieces =
    format_time date micros
    ++ (codes " " ++ (log_level_name level ++ (rendered_all pieces ++ trailer arr line)))

level_name_length : (level : LogLevel) → length (log_level_name level) ≡ 6
unfolding log_level_name
level_name_length trace = refl
level_name_length debug = refl
level_name_length info = refl
level_name_length warn = refl
level_name_length error = refl
level_name_length fatal = refl

put_known-ok :
    (s : LogStream) (str : Bytes) (n : ℕ)
    → length str ≡ n
    → put_known s str n ≡ ok (append_data s str)
unfolding put_known
put_known-ok s str n h = ground arith

abbrev start : Bytes → LogStream
start memory = record { buffer = fresh memory }

-- The stream of a new logger object.
begun : Bytes → LogLevel → Bytes → ℕ → LogStream
begun memory level date micros =
    append_data
      (put_text (put_text (start memory) (some (format_time date micros))) (some (codes " ")))
      (log_level_name level)

impl-begun :
    (memory : Bytes) (level : LogLevel) (file : SourceFile) (line : ℕ) (date : Bytes) (micros : ℕ)
    → impl memory level file line date micros
      ≡ ok (record {
        stream = begun memory level date micros;
        level = level;
        line = line;
        basename = file;
      })
unfolding impl begun
impl-begun memory level file line date micros = rw (
    put_known-ok
      (put_text (put_text (start memory) (some (format_time date micros))) (some (codes " ")))
      (log_level_name level) 6 (level_name_length level))

begun-IsValid :
    (memory : Bytes) (level : LogLevel) (date : Bytes) (micros : ℕ)
    → 0 < length memory
    → IsValid (begun memory level date micros).buffer
unfolding begun
begun-IsValid memory level date micros room =
    let s₁ = put_text (start memory) (some (format_time date micros)) in
    let s₂ = put_text s₁ (some (codes " ")) in
    let a₁ = put_text-Adds (start memory) (some (format_time date micros)) room in
    let a₂ = put_text-Adds s₁ (some (codes " ")) a₁.valid in
    (append_data-Adds s₂ (log_level_name level) a₂.valid).valid

begun-Put :
    (memory : Bytes) (level : LogLevel) (date : Bytes) (micros : ℕ) (rest : Bytes)
    {out : Outcome LogStream}
    → 0 < length memory
    → Put (begun memory level date micros) rest out
    → Put
        (start memory)
        (format_time date micros ++ (codes " " ++ (log_level_name level ++ rest)))
        out
unfolding begun
begun-Put memory level date micros rest room next =
    let s₁ = put_text (start memory) (some (format_time date micros)) in
    let a₁ = put_text-Adds (start memory) (some (format_time date micros)) room in
    let s₂ = put_text s₁ (some (codes " ")) in
    let a₂ = put_text-Adds s₁ (some (codes " ")) a₁.valid in
    let s₃ = append_data s₂ (log_level_name level) in
    let a₃ = append_data-Adds s₂ (log_level_name level) a₂.valid in
    Put-next (start memory) s₁ _ _ a₁ (Put-next s₁ s₂ (codes " ") _ a₂ (Put-next s₂ s₃ _ _ a₃ next))

finish-Put :
    (i : Impl)
    → IsValid i.stream.buffer
    → i.line < 2 ^ 31
    → Put i.stream
        (codes " - " ++ (file_text i.basename ++ (codes ":" ++ (decimal i.line ++ codes "\n"))))
        (finish i)
unfolding finish
finish-Put i v h =
    let s₁ = put_text i.stream (some (codes " - ")) in
    let a₁ = put_text-Adds i.stream (some (codes " - ")) v in
    let s₂ = append_data s₁ (file_text i.basename) in
    let a₂ = append_data-Adds s₁ (file_text i.basename) a₁.valid in
    let s₃ = put_text s₂ (some (codes ":")) in
    let a₃ = put_text-Adds s₂ (some (codes ":")) a₂.valid in
    let (s₄, e, a₄) = put_int-Adds s₃ (pos i.line) (omega arith) a₃.valid in
    let s₅ = put_text s₄ (some (codes "\n")) in
    let a₅ = put_text-Adds s₄ (some (codes "\n")) a₄.valid in
    let last =
      subst (λ xs. Put s₄ xs (ok s₅)) (append-nil (codes "\n"))
        (Put-next s₄ s₅ (codes "\n") [] a₅ (Put-end s₅ a₅.valid)) in
    Put-next i.stream s₁ _ _ a₁
      (Put-next s₁ s₂ _ _ a₂ (Put-next s₂ s₃ _ _ a₃ (Put-next s₃ s₄ _ _ a₄ (rw e last))))

-- A log statement whose numbers are `int`s never overruns its stream's 4096 bytes, and its `assert`
-- never fails: it always returns, with fewer than 4096 bytes to write, and if the line leaves 32
-- bytes free, these are exactly the time, the level in six characters, the texts of the pieces, the
-- file name and the line number, and a newline.
pub log_line_lem :
    (memory : Bytes) (level : LogLevel) (arr : Bytes) (line : ℕ) (date : Bytes) (micros : ℕ)
    (pieces : List Piece)
    → length memory ≡ 4096
    → line < 2 ^ 31
    → All IsPiece pieces
    → (out : Bytes) × (log_line memory level arr line date micros pieces ≡ ok out)
      × (length out < 4096)
      × (length (whole_line level arr line date micros pieces) + 32 ≤ 4096
          → out ≡ whole_line level arr line date micros pieces)
unfolding log_line
log_line_lem memory level arr line date micros pieces size h ok_pieces = (
  to_string p.stream.buffer,
  rw (impl-begun memory level (source_file arr) line date micros) (rw put.returns (rw p.returns)),
  omega (arith, p.valid, p.size, to_string-le p.stream.buffer),
  λ room.
      (p.all (omega arith)).0
      ∙ ap (λ xs. xs ++ whole_line level arr line date micros pieces) (to_string-fresh memory),
)
  where
    s : LogStream
    s = begun memory level date micros

    valid : IsValid s.buffer
    valid = begun-IsValid memory level date micros (omega arith)

    put : Put s (rendered_all pieces) (put_pieces s pieces)
    put = put_pieces-Put s pieces valid ok_pieces

    last : Impl
    last = record { stream = put.stream; level = level; line = line; basename = source_file arr }

    fin : Put put.stream (trailer arr line) (finish last)
    fin = finish-Put last put.valid h

    p : Put (start memory) (whole_line level arr line date micros pieces) (finish last)
    p =
        begun-Put memory level date micros (rendered_all pieces ++ trailer arr line) (omega arith)
          (Put-trans s (rendered_all pieces) (trailer arr line) put fin)
