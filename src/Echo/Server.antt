-- ===== src/Echo/Server.antt =====
-- echo/echo_server.cpp.
use learnuv.Base.{zero, List, [], ◌∷◌, Bytes, Outcome, ok, ◌>>=◌, ℕ, ◌≡◌, Option, none, some, refl}
use learnuv.Base.Int.{ℤ, pos, negsuc}
use learnuv.Uv.{Nread, count, c_string, UvBuf, common_alloc_buffer, Host, Begun, after_listen}

-- What a callback asks of libuv.
pub data Action : Type 0 where
  write : Bytes → Action
  close : Action
  shutdown : Action

-- `alloc_buffer(handle, suggested_size, buf)`, as `common_alloc_buffer`
pub alloc_buffer : Option ℕ → ℕ → UvBuf → UvBuf
alloc_buffer none suggested_size buf = buf
alloc_buffer (some base) suggested_size buf = record { base = base; len = suggested_size }

pub alloc_buffer-common :
    (memory : Option ℕ) (suggested_size : ℕ) (buf : UvBuf)
    → alloc_buffer memory suggested_size buf ≡ common_alloc_buffer memory suggested_size buf
unfolding alloc_buffer common_alloc_buffer
alloc_buffer-common none suggested_size buf = refl
alloc_buffer-common (some base) suggested_size buf = refl

-- `on_data(stream, nread, buf)`, which no call registers: all of the buffer is written, and it is
-- printed as a C string first.
pub on_data : Nread → Bytes → Outcome (List Action)
on_data (count n) buf = do _printed ← c_string buf; ok (write buf ∷ [])
on_data _ buf = ok (close ∷ [])

-- `on_new_connection(server, status)`, by what `uv_accept` answers: the connection is shut down.
pub on_new_connection : ℤ → ℤ → List Action
on_new_connection (negsuc e) accepted = []
on_new_connection (pos n) (pos zero) = shutdown ∷ []
on_new_connection (pos n) _ = []

-- `main`, into the loop: the answer of `uv_listen` is printed.
unfoldable pub main : Host → Begun (Unit {0})
main h = after_listen h.listen tt
