-- ===== src/Log/Stream.antt =====
-- `LogStream` of common/log/LogStream.h and LogStream.cpp.
pub mod Convert
pub mod Line
use mathlib.Core.List.{reverse}
use learnuv.Base.{
  ℕ, zero, suc, ◌+◌, ◌-◌, Bool, true, false, Option, none, some, [], ◌∷◌, ◌++◌, Bytes, codes, leb,
  if◌then◌else◌, out_of_fuel, Outcome, ok, fail, ◌>>=◌,
}
use learnuv.Base.Int.{ℤ, pos, negsuc, quot, rem}
use learnuv.Base.Decimal.{value}
use learnuv.Log.FixedBuffer.{FixedBuffer, avail, append, formatted}

abbrev pub small_buffer : ℕ
small_buffer = 4096

abbrev pub max_numeric_size : ℕ
max_numeric_size = 32

-- `class LogStream`, whose only field is its buffer
pub record LogStream : Type 0 where
  pub buffer : FixedBuffer

-- `digits` and `zero`: `zero[lsd]`, for a remainder between -9 and 9
abbrev pub digits : Bytes
digits = codes "9876543210123456789"

abbrev pub nth : Bytes → ℕ → ℕ
nth [] i = 0
nth (x ∷ xs) zero = x
nth (x ∷ xs) (suc i) = nth xs i

pub zero_at : ℤ → ℕ
zero_at (pos n) = nth digits (9 + n)
zero_at (negsuc n) = nth digits (8 - n)

abbrev pub is_zero : ℤ → Bool
is_zero (pos zero) = true
is_zero _ = false

-- The loop of `convert`, with the bytes written so far and fuel for its rounds. An `int` has ten
-- digits at most.
pub convert_loop : ℕ → ℤ → Bytes → Outcome Bytes
unfolding zero_at
convert_loop zero i buf = fail out_of_fuel
convert_loop (suc fuel) i buf =
    let buf' = buf ++ zero_at (rem i 10) ∷ [] in
    let rest = convert_loop fuel (quot i 10) buf' in
    if is_zero (quot i 10) then ok (reverse buf') else rest

-- `convert(buf, value)`: the digits, which it writes with a zero byte behind them
pub convert : ℤ → Outcome Bytes
unfolding convert_loop
convert value = convert_loop 20 value []

-- `append(data, len)` of the stream
pub append_data : LogStream → Bytes → LogStream
append_data s text = record s { buffer = append s.buffer text }

-- `operator<<(const char *)`, with `none` for a null pointer
pub put_text : LogStream → Option Bytes → LogStream
put_text s (some str) = record s { buffer = append s.buffer str }
put_text s none = record s { buffer = append s.buffer (codes "(null)") }

-- Text that is formatted in place, with a zero byte behind it, where 32 bytes are left.
pub put_formatted : LogStream → Bytes → LogStream
put_formatted s text =
    if leb max_numeric_size (avail s.buffer)
    then record s { buffer = formatted s.buffer text }
    else s

-- `operator<<(int)`, by `formatInteger`. The conversion runs only where there is room.
pub put_int : LogStream → ℤ → Outcome LogStream
unfolding convert put_formatted
put_int s v =
    if leb max_numeric_size (avail s.buffer)
    then convert v >>= (λ text. ok (put_formatted s text))
    else ok s

-- `operator<<(double)`. What `snprintf` makes of the number by "%.12g" is an argument, of at most
-- 31 characters; it returns their number.
pub put_double : LogStream → Bytes → LogStream
unfolding put_formatted
put_double s text = put_formatted s text
