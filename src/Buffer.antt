-- ===== src/Buffer.antt =====
-- common/buffer/Buffer.h and Buffer.cpp: a growing byte buffer with a read and a write index.
-- An operation returns the new buffer, or the failure that stops the process.
pub mod Inv
pub mod Append
pub mod Returns
pub mod Retrieve
pub mod Words
pub mod Calls
mod Tests
use learnuv.Base.{
  ℕ, ◌-◌, ◌^◌, ◌++◌, Bytes, Outcome, ok, assertion, out_of_range, length_error, ◌>>=◌, ◌>>◌,
  require, length, take, drop, replicate, overwrite, ltb, leb, ◌==◌, if◌then◌else◌,
}
use learnuv.Base.Word.{add_size, sub_size, store32, load32, htonl, ntohl}

pub record Buffer : Type 0 where
  pub buffer : Bytes
  pub reader_index : ℕ
  pub writer_index : ℕ

-- `std::vector<char>::max_size` on a 64-bit host
abbrev pub max_size : ℕ
max_size = 2 ^ 63 - 1

abbrev pub initial_size : ℕ
initial_size = 1024

-- The constructor; a new vector's elements are zero.
abbrev pub new : ℕ → Buffer
new initial = record { buffer = replicate initial 0; reader_index = 0; writer_index = 0 }

-- `a.swap(b)`: the two buffers after it
pub swap : Buffer → Buffer → Buffer × Buffer
swap a b = (
  record a { buffer = b.buffer; reader_index = b.reader_index; writer_index = b.writer_index },
  record b { buffer = a.buffer; reader_index = a.reader_index; writer_index = a.writer_index },
)

pub readable_bytes : Buffer → ℕ
readable_bytes b = sub_size b.writer_index b.reader_index

pub writeable_bytes : Buffer → ℕ
writeable_bytes b = sub_size (length b.buffer) b.writer_index

pub prependable_bytes : Buffer → ℕ
prependable_bytes b = b.reader_index

pub retrieve_all : Buffer → Buffer
retrieve_all b = record b { reader_index = 0; writer_index = 0 }

pub retrieve : Buffer → ℕ → Outcome Buffer
unfolding readable_bytes retrieve_all
retrieve b len = do
  require (leb len (readable_bytes b)) assertion
  if ltb len (readable_bytes b)
      then ok (record b { reader_index = add_size b.reader_index len })
      else ok (retrieve_all b)

-- What the returned pointer shows: the memory from there to the vector's end.
unfoldable pub peek : Buffer → Bytes
peek b = drop b.reader_index b.buffer

pub retrieve_as_string : Buffer → ℕ → Outcome (Bytes × Buffer)
retrieve_as_string b len = do
  require (leb len (readable_bytes b)) assertion
  let ret = take len (peek b)
  b' ← retrieve b len
  ok (ret, b')

-- `resize(n)`, which throws past `max_size`
pub resize : Bytes → ℕ → Outcome Bytes
resize xs n = do
  require (leb n max_size) length_error
  ok (take n xs ++ replicate (n - length xs) 0)

-- The second branch of `makeSpace`: the readable bytes go to the front, and the read index is
-- cleared before the write index is reduced by it.
pub move_to_front : Buffer → Outcome Buffer
unfolding readable_bytes
move_to_front b =
    let moved = record b {
      buffer = overwrite 0 (drop b.reader_index (take b.writer_index b.buffer)) b.buffer;
      reader_index = 0;
      writer_index = sub_size b.writer_index 0;
    } in
    do require (readable_bytes b == readable_bytes moved) assertion; ok moved

pub make_space : Buffer → ℕ → Outcome Buffer
unfolding resize move_to_front writeable_bytes prependable_bytes
make_space b len =
    if ltb (add_size (writeable_bytes b) (prependable_bytes b)) len
    then resize b.buffer (add_size b.writer_index len) >>= (λ xs. ok (record b { buffer = xs }))
    else move_to_front b

pub ensure_writable_bytes : Buffer → ℕ → Outcome Buffer
unfolding make_space writeable_bytes
ensure_writable_bytes b len = do
  b' ← if ltb (writeable_bytes b) len then make_space b len else ok b
  require (leb len (writeable_bytes b')) assertion
  ok b'

-- `append(data, len)`. The list is the memory at `data`; reading past it is a fault.
pub append : Buffer → Bytes → ℕ → Outcome Buffer
unfolding ensure_writable_bytes
append b xs len = do
  b' ← ensure_writable_bytes b len
  require (leb len (length xs)) out_of_range
  ok (record b' {
    buffer = overwrite b'.writer_index (take len xs) b'.buffer;
    writer_index = add_size b'.writer_index len;
  })

pub peek_uint32 : Buffer → Outcome ℕ
unfolding readable_bytes peek
peek_uint32 b = do require (leb 4 (readable_bytes b)) assertion; ok (ntohl (load32 (peek b)))

pub retrieve_uint32 : Buffer → Outcome Buffer
unfolding retrieve
retrieve_uint32 b = retrieve b 4

pub read_uint32 : Buffer → Outcome (ℕ × Buffer)
unfolding peek_uint32 retrieve_uint32
read_uint32 b = do ret ← peek_uint32 b; b' ← retrieve_uint32 b; ok (ret, b')

pub write_uint32 : Buffer → ℕ → Outcome Buffer
unfolding append
write_uint32 b hn = append b (store32 (htonl hn)) 4
