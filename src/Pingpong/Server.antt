-- ===== src/Pingpong/Server.antt =====
-- pingpong/server.cc. A connection is known by a number; all of them read into the same `msgBuf`.
pub mod Late
use learnuv.Base.{
  ℕ, zero, suc, ◌≤◌, ◌<◌, ◌≡◌, refl, Bool, true, false, List, [], ◌∷◌, ◌++◌, Bytes, length, take,
  overwrite, All, ◌==◌, if◌then◌else◌, Outcome, ok, ◌>>=◌, ◌>>◌, sym, ap, subst, arith,
  length-overwrite, take-overwrite, out_of_range, fail,
}
use learnuv.Base.Int.{ℤ, pos, negsuc}
use learnuv.Uv.{Nread, count, check_uv, Host, Begun, quits, after_listen}
use learnuv.Buffer.Calls.{size}

-- What a callback asks of libuv: to write bytes to a connection, or to close it.
pub data Reply : Type 0 where
  wrote : ℕ → Bytes → Reply
  closed : ℕ → Reply

-- `alloc_buffer` hands out `msgBuf`, into which libuv reads: the memory afterwards
pub filled : Bytes → Bytes → Bytes
filled msg_buf bytes = overwrite 0 bytes msg_buf

-- `on_read_client(client, nread, buf)`, with the memory at `buf->base`
pub on_read_client : ℕ → Nread → Bytes → Outcome (List Reply)
on_read_client conn (count zero) base = ok []
on_read_client conn (count (suc n)) base = ok (wrote conn (take (suc n) base) ∷ [])
on_read_client conn _ base = ok (closed conn ∷ [])

-- Whether a new connection is read from: `on_new_connection(server, status)`, by what `uv_accept`
-- and `uv_read_start` answer
pub on_new_connection : ℤ → ℤ → ℤ → Outcome Bool
on_new_connection (negsuc e) accepted started = ok false
on_new_connection (pos n) (negsuc e) started = ok false
on_new_connection (pos n) (pos zero) started = do check_uv started; ok true
on_new_connection (pos n) (pos (suc e)) started = ok false

-- `main`, into the loop, over the arguments behind the program's name: `msgBuf`, which is whatever
-- memory `malloc` returns. With two arguments, `atoi` is given the null pointer behind them.
unfoldable pub main : List Bytes → Bytes → Host → Outcome (Begun Bytes)
main (address ∷ port ∷ size ∷ more) memory h = do
  check_uv h.listen
  ok (after_listen h.listen memory)
main (address ∷ port ∷ []) memory h = fail out_of_range
main _ memory h = ok (quits 1)

-- Reads with data, as the loop reports them: the connection and the bytes.
pub serve : Bytes → List (ℕ × Bytes) → Outcome (List Reply)
unfolding filled on_read_client
serve msg_buf [] = ok []
serve msg_buf ((conn, bytes) ∷ reads) = do
  let mem = filled msg_buf bytes
  r ← on_read_client conn (count (length bytes)) mem
  rs ← serve mem reads
  ok (r ++ rs)

-- What is written to a connection, and what is read from it.
abbrev pub written_to : ℕ → List Reply → Bytes
written_to c [] = []
written_to c (wrote d bytes ∷ rs) = if d == c then bytes ++ written_to c rs else written_to c rs
written_to c (closed d ∷ rs) = written_to c rs

abbrev pub read_from : ℕ → List (ℕ × Bytes) → Bytes
read_from c [] = []
read_from c ((d, bytes) ∷ reads) = if d == c then bytes ++ read_from c reads else read_from c reads

abbrev pub Fits : Bytes → List (ℕ × Bytes) → Type 0
Fits msg_buf = All (λ r. (0 < length r.1) × (length r.1 ≤ length msg_buf))

pub returned :
    (msg_buf : Bytes) (conn : ℕ) (bytes : Bytes)
    → 0 < length bytes
    → length bytes ≤ length msg_buf
    → on_read_client conn (count (length bytes)) (filled msg_buf bytes) ≡ ok (wrote conn bytes ∷ [])
unfolding on_read_client filled
returned msg_buf conn [] h k = absurd (omega arith)
returned msg_buf conn (b ∷ bytes) h k =
    ap (λ xs. ok (wrote conn xs ∷ []))
      (take-overwrite 0 (suc (length bytes)) (b ∷ bytes) msg_buf (omega arith) (omega arith))

pub filled-Fits :
    (msg_buf bytes : Bytes) (reads : List (ℕ × Bytes))
    → Fits msg_buf reads
    → Fits (filled msg_buf bytes) reads
unfolding filled
filled-Fits msg_buf bytes reads h =
    subst (λ n. All (λ r. (0 < length r.1) × (length r.1 ≤ n)) reads)
      (sym (length-overwrite 0 bytes msg_buf)) h

-- For any reads of any connections, each of which fits the shared buffer, every connection is
-- written exactly the bytes that were read from it, in order.
pub serve_lem :
    (msg_buf : Bytes) (reads : List (ℕ × Bytes))
    → Fits msg_buf reads
    → (rs : List Reply) × (serve msg_buf reads ≡ ok rs)
      × ((c : ℕ) → written_to c rs ≡ read_from c reads)
unfolding serve
serve_lem msg_buf [] h = ([], refl, λ c. refl)
serve_lem msg_buf ((conn, bytes) ∷ reads) (fit, h) =
    let (rs, e, same) =
      serve_lem (filled msg_buf bytes) reads (filled-Fits msg_buf bytes reads h) in
    (
      wrote conn bytes ∷ rs,
      rw (returned msg_buf conn bytes fit.0 fit.1) (rw e refl),
      λ c. ap (λ xs. if conn == c then bytes ++ xs else xs) (same c),
    )
