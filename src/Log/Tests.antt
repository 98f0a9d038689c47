-- ===== src/Log/Tests.antt =====
-- Runs of the log, and its theorems at concrete inputs.
use learnuv.Base.{
  ℕ, ◌+◌, ◌≤◌, ◌<◌, ◌≡◌, none, some, List, [], ◌∷◌, arith, Bytes, codes, length, replicate,
  length-replicate, ok,
}
use learnuv.Base.Int.{pos, negsuc}
use learnuv.Base.Decimal.{decimal, value}
use learnuv.Log.Stream.{convert}
use learnuv.Log.Stream.Convert.{convert-decimal}
use learnuv.Log.Stream.Line.{Piece, text, int}
use learnuv.Log.Logger.{info, source_file, log_line}
use learnuv.Log.Logger.Basename.{IsBasename, source_file-IsBasename}
use learnuv.Log.Logger.Output.{whole_line, log_line_lem}

abbrev caller : List Piece
caller = text (some (codes "read ")) ∷ int (pos 42) ∷ text none ∷ []

abbrev page : Bytes
page = replicate 4096 170

abbrev path : Bytes
path = codes "chat/ChatServer.cpp"

abbrev date : Bytes
date = codes "20180922 10:00:00"

convert-decimal_example :
    (convert (negsuc 1204) ≡ ok (decimal 1205))
    × (0 < length (decimal 1205))
    × (length (decimal 1205) ≤ 10)
    × (value (decimal 1205) ≡ 1205)
convert-decimal_example = convert-decimal (negsuc 1204) (omega arith)

source_file-IsBasename_example : IsBasename path (source_file path)
source_file-IsBasename_example = source_file-IsBasename path

log_line_lem_example :
    (out : Bytes) × (log_line page info path 66 date 250 caller ≡ ok out)
    × (length out < 4096)
    × (length (whole_line info path 66 date 250 caller) + 32 ≤ 4096
        → out ≡ whole_line info path 66 date 250 caller)
log_line_lem_example =
    log_line_lem page info path 66 date 250 caller (length-replicate {A = ℕ} 4096 170) (omega arith)
      (tt, (omega arith, (tt, tt)))
