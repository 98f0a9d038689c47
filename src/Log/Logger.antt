-- ===== src/Log/Logger.antt =====
-- common/log/Logging.h and Logging.cpp: one line for each logger object.
pub mod Basename
pub mod Output
use learnuv.Base.{
  ℕ, suc, ◌+◌, ◌-◌, ◌%◌, Bool, true, false, Option, none, some, List, [], ◌∷◌, ◌++◌, Bytes, codes,
  length, take, drop, leb, ◌==◌, if◌then◌else◌, assertion, Outcome, ok, ◌>>=◌, ◌>>◌, require, ◌^◌,
}
use learnuv.Base.Int.{pos, ℤ, signed32}
use learnuv.Base.Decimal.{decimal, zero_padded}
use learnuv.Log.FixedBuffer.{fresh, to_string}
use learnuv.Log.Stream.{LogStream, append_data, put_text, put_int}
use learnuv.Log.Stream.Line.{Piece, put_pieces}

-- `enum LogLevel`, in order
pub data LogLevel : Type 0 where
  trace debug info warn error fatal : LogLevel

pub rank : LogLevel → ℕ
rank trace = 0
rank debug = 1
rank info = 2
rank warn = 3
rank error = 4
rank fatal = 5

-- `LogLevelName`
pub log_level_name : LogLevel → Bytes
log_level_name trace = codes "TRACE "
log_level_name debug = codes "DEBUG "
log_level_name info = codes "INFO  "
log_level_name warn = codes "WARN  "
log_level_name error = codes "ERROR "
log_level_name fatal = codes "FATAL "

-- `initLogLevel`, from the two environment variables
pub init_log_level : Bool → Bool → LogLevel
init_log_level true has_debug = trace
init_log_level false true = debug
init_log_level false false = info

-- `T(str, len)`, whose constructor asserts the length
pub put_known : LogStream → Bytes → ℕ → Outcome LogStream
put_known s str len = do require (length str == len) assertion; ok (append_data s str)

-- `strrchr(data, '/')`, as an index
pub last_slash : Bytes → Option ℕ
last_slash [] = none
last_slash (c ∷ cs) = elim (last_slash cs) [
  | some k ↦ some (suc k)
  | none ↦ if c == b'/' then some 0 else none
]

-- `SourceFile`: the array behind `data_`, the index of `data_` in it, and `size_`.
pub record SourceFile : Type 0 where
  pub arr : Bytes
  pub data_index : ℕ
  pub size : ℕ

-- `SourceFile(const char (&arr)[N])`, over the text without its terminator
pub source_file : Bytes → SourceFile
unfolding last_slash
source_file arr = elim (last_slash arr) [
  | some slash ↦ record { arr = arr; data_index = slash + 1; size = length arr - (slash + 1) }
  | none ↦ record { arr = arr; data_index = 0; size = length arr }
]

-- `SourceFile(const char *filename)`: the text at `data_`, and `size_`, from which the length of
-- that text is subtracted. It is not initialised; the 32 bits that it held are an argument.
pub named_source_file : ℕ → Bytes → Bytes × ℤ
unfolding last_slash
named_source_file held filename =
    let base : Bytes = elim (last_slash filename) [
      | some slash ↦ drop (slash + 1) filename
      | none ↦ filename
    ] in
    (base, signed32 ((held + 2 ^ 32 - length base) % 2 ^ 32))

-- `stream << basename_` appends `size_` bytes from `data_` on.
pub file_text : SourceFile → Bytes
file_text f = take f.size (drop f.data_index f.arr)

-- `formatTime()`. What `localtime` and `strftime` make of the seconds is an argument; the
-- microseconds, which are not negative after the epoch, follow as six digits.
pub format_time : Bytes → ℕ → Bytes
format_time date micros = date ++ b',' ∷ zero_padded 6 (decimal (micros % 1000000))

-- `Impl`: the stream and what `finish` needs
pub record Impl : Type 0 where
  pub stream : LogStream
  pub level : LogLevel
  pub line : ℕ
  pub basename : SourceFile

-- The constructor of `Impl`. The memory of its stream is not initialised.
pub impl : Bytes → LogLevel → SourceFile → ℕ → Bytes → ℕ → Outcome Impl
unfolding put_known format_time log_level_name
impl memory level file line date micros = do
  let s = put_text (record { buffer = fresh memory }) (some (format_time date micros))
  let s' = put_text s (some (codes " "))
  s'' ← put_known s' (log_level_name level) 6
  ok (record { stream = s''; level = level; line = line; basename = file })

-- `finish()`
pub finish : Impl → Outcome LogStream
unfolding file_text
finish i = do
  let s = append_data (put_text i.stream (some (codes " - "))) (file_text i.basename)
  s' ← put_int (put_text s (some (codes ":"))) (pos i.line)
  ok (put_text s' (some (codes "\n")))

-- The life of a logger object: it is made, the caller's pieces are put, and its destructor
-- finishes the line and hands the buffer's bytes to `g_output`.
pub log_line : Bytes → LogLevel → Bytes → ℕ → Bytes → ℕ → List Piece → Outcome Bytes
log_line memory level arr line date micros pieces = do
  i ← impl memory level (source_file arr) line date micros
  s ← put_pieces i.stream pieces
  s' ← finish (record i { stream = s })
  ok (to_string (s'.buffer))

-- `LOG_INFO << …` and `LOG_ERROR << …`: what is written, if anything, at the level `g`
pub log_info : LogLevel → Bytes → Bytes → ℕ → Bytes → ℕ → List Piece → Outcome (Option Bytes)
unfolding rank
log_info g memory arr line date micros pieces =
    if leb (rank g) (rank info)
    then log_line memory info arr line date micros pieces >>= (λ out. ok (some out))
    else ok none

pub log_error : Bytes → Bytes → ℕ → Bytes → ℕ → List Piece → Outcome (Option Bytes)
log_error memory arr line date micros pieces =
    log_line memory error arr line date micros pieces >>= (λ out. ok (some out))
