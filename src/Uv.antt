-- ===== src/Uv.antt =====
-- What libuv hands to the callbacks, and the helpers of common/util.h and common/util.cpp.
use learnuv.Base.{
  ℕ, ◌-◌, ◌^◌, ◌≡◌, ◌≢◌, refl, Bool, [], ◌∷◌, ◌++◌, arith, Bytes, All, ◌==◌, if◌then◌else◌,
  out_of_range, exited, Outcome, ok, fail, require, ◌>>=◌, ◌≤◌, length, Option, none, some, true,
  false, ◌>>◌,
}
use learnuv.Base.Int.{ℤ, pos, negsuc}

-- The `ssize_t nread` of a read callback: a count, `UV_EOF`, or another negative number -(k + 1).
pub data Nread : Type 0 where
  count : ℕ → Nread
  eof : Nread
  error : ℕ → Nread

-- What a callback is told of a stream that has ended or failed.
abbrev pub IsEnd : Nread → Type 0
IsEnd (count n) = ⊥
IsEnd _ = Unit {0}

-- `nread` converted to `size_t`, where it is not `UV_EOF`
abbrev pub nread_size : ℕ → ℕ
nread_size k = 2 ^ 64 - k - 1

-- `check_uv(status)` ends the process on a negative status.
abbrev pub check_uv : ℤ → Outcome (Unit {0})
check_uv (pos n) = ok tt
check_uv (negsuc n) = fail exited

-- `safe_malloc`: the argument says whether the allocator returned memory.
abbrev pub safe_malloc : Bool → Outcome (Unit {0})
safe_malloc got = require got exited

-- Where what follows exits, the whole exits.
pub check_uv-exits :
    {Value : Type 0} (status : ℤ) (o : Outcome Value)
    → o ≡ fail exited
    → (check_uv status >> o) ≡ fail exited
check_uv-exits (pos n) o e = e
check_uv-exits (negsuc n) o e = refl

pub safe_malloc-exits :
    {Value : Type 0} (got : Bool) (o : Outcome Value)
    → o ≡ fail exited
    → (safe_malloc got >> o) ≡ fail exited
safe_malloc-exits true o e = e
safe_malloc-exits false o e = refl

-- A `uv_buf_t`: an address and a length
pub record UvBuf : Type 0 where
  pub base : ℕ
  pub len : ℕ

-- `common_alloc_buffer(handle, suggested_size, buf)`, by the address that `malloc` returns; without
-- memory, the `uv_buf_t` stays as it is.
unfoldable pub common_alloc_buffer : Option ℕ → ℕ → UvBuf → UvBuf
common_alloc_buffer none suggested_size buf = buf
common_alloc_buffer (some base) suggested_size buf = record { base = base; len = suggested_size }

-- What the host answers to a program that starts: the allocator, at its first and its second call,
-- and the calls of libuv.
pub record Host : Type 0 where
  pub got : Bool
  pub got_again : Bool
  pub init : ℤ
  pub bind : ℤ
  pub listen : ℤ
  pub timer_start : ℤ

-- How `main` goes on: into the loop, with a server that listens or one that does not, or back with
-- a status.
pub data Begun (State : Type 0) : Type 0 where
  listens : State → Begun State
  idles : State → Begun State
  quits : ℕ → Begun State

-- After a `uv_listen` whose answer ends nothing
abbrev pub after_listen : {State : Type 0} → ℤ → State → Begun State
after_listen (pos n) s = listens s
after_listen (negsuc e) s = idles s

-- A C string in memory: the bytes in front of the first zero byte. Without one, reading runs out
-- of the memory.
unfoldable pub c_string : Bytes → Outcome Bytes
c_string [] = fail out_of_range
c_string (b ∷ mem) = if b == 0 then ok [] else (do s ← c_string mem; ok (b ∷ s))

-- `std::string::c_str` puts a zero byte behind the text.
abbrev pub IsText : Bytes → Type 0
IsText s = All (λ b. b ≢ 0) s

pub c_string-text : (s rest : Bytes) → IsText s → c_string (s ++ 0 ∷ rest) ≡ ok s
unfolding c_string
c_string-text [] rest h = refl
c_string-text (b ∷ s) rest h = ground (arith, c_string-text s rest h.1)

-- What `%s`, `strlen` and the like take from a text with a zero byte behind it
abbrev pub before_zero : Bytes → Bytes
before_zero [] = []
before_zero (b ∷ s) = if b == 0 then [] else b ∷ before_zero s

pub c_string-before_zero : (s rest : Bytes) → c_string (s ++ 0 ∷ rest) ≡ ok (before_zero s)
unfolding c_string
c_string-before_zero [] rest = refl
c_string-before_zero (b ∷ s) rest = ground (arith, c_string-before_zero s rest)

pub length-before_zero : (s : Bytes) → length (before_zero s) ≤ length s
length-before_zero [] = omega arith
length-before_zero (b ∷ s) = ground (arith, length-before_zero s)

pub before_zero-IsText : (s : Bytes) → IsText s → before_zero s ≡ s
before_zero-IsText [] h = refl
before_zero-IsText (b ∷ s) h = ground (arith, before_zero-IsText s h.1)
