-- ===== src/Socks/Layout.antt =====
-- Where the fields of a `Tunnel` lie, and the buffers that `alloc_buffer_client` and
-- `alloc_buffer_server` hand to libuv. The sizes of libuv's types are not known here, so the
-- offsets are arguments.
use learnuv.Base.{ℕ, ◌+◌, ◌-◌, ◌≤◌, ◌<◌, ◌≡◌, refl, arith}
use learnuv.Uv.{UvBuf}

-- The offsets of the fields, and the size of the whole.
pub record Layout : Type 0 where
  pub client : ℕ
  pub server : ℕ
  pub client_buf : ℕ
  pub server_buf : ℕ
  pub size : ℕ

-- What C says of the layout of the struct, for unions that hold at least two pointers and no
-- alignment above 8: the fields stand in order without overlap, `server_buf` is the last one, and
-- at most 7 bytes of padding follow it.
pub record IsLayout (l : Layout) : Type 0 where
  pub in_order : l.client + 16 ≤ l.server
  pub apart : l.client_buf + 4096 ≤ l.server_buf
  pub inside : l.server_buf + 4096 ≤ l.size
  pub padding : l.size ≤ l.server_buf + 4096 + 7

-- `CONTAINER_OF(ptr, Tunnel, field)`
pub container_of : ℕ → ℕ → ℕ
container_of ptr field = ptr - field

pub alloc_buffer_client : Layout → ℕ → UvBuf
unfolding container_of
alloc_buffer_client l handle = record {
  base = container_of handle l.client + l.client_buf;
  len = 4096;
}

-- It takes the server's handle for the client's.
pub alloc_buffer_server : Layout → ℕ → UvBuf
unfolding container_of
alloc_buffer_server l handle = record {
  base = container_of handle l.client + l.server_buf;
  len = 4096;
}

-- For a tunnel at address `t`, the client's reads go exactly into `client_buf`, while the buffer
-- for the server's reads, of the same length, ends outside the tunnel.
pub alloc_buffers_lem :
    (l : Layout) (t : ℕ)
    → IsLayout l
    → (alloc_buffer_client l (t + l.client) ≡ record { base = t + l.client_buf; len = 4096 })
      × (let b = alloc_buffer_server l (t + l.server) in
          (t + l.server_buf < b.base) × (t + l.size < b.base + b.len))
unfolding alloc_buffer_client alloc_buffer_server container_of
alloc_buffers_lem l t h =
    (rw at_start refl, (omega (arith, h.in_order), omega (arith, h.in_order, h.padding)))
  where
    at_start : t + l.client - l.client ≡ t
    at_start = omega arith
