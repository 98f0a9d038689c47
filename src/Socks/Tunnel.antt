-- ===== src/Socks/Tunnel.antt =====
-- `Tunnel` and its callbacks in socks/socks_server.cpp. A callback returns the new state and what
-- it asks of libuv, in order; the bytes of a write are those in its buffer when it is asked for.
pub mod Relay
pub mod Parcels
pub mod Session
pub mod Phases
use learnuv.Base.{
  ℕ, ◌+◌, Bool, true, false, ◌&&◌, Option, none, some, List, [], ◌∷◌, ◌++◌, Bytes, length, take,
  drop, overwrite, ltb, ◌==◌, if◌then◌else◌, assertion, out_of_range, use_after_free, Outcome, ok,
  fail, ◌>>=◌, ◌>>◌, require,
}
use learnuv.Base.Int.{ℤ, pos, negsuc}
use learnuv.Uv.{Nread, count, eof, error, c_string}
use learnuv.Socks.Address.{byte_at, Addr, parse_addr}

-- `enum Status`
pub data Status : Type 0 where
  tunnel_start success close_client bad_request : Status
  server_write_end client_write_end connecting_to_server connected_to_server : Status

pub record Tunnel : Type 0 where
  pub status : Status
  pub addr : Addr
  pub server_buf_offset : ℕ
  pub client_buf : Bytes
  pub server_buf : Bytes

pub data Effect : Type 0 where
  to_client : Bytes → Effect
  to_server : Bytes → Effect
  connect : Addr → Effect
  read_server : Effect

-- A tunnel in memory, or what is left of it after `free`.
pub data Life : Type 0 where
  live : Tunnel → Life
  freed : Life

-- `buf->base[0] == 0x04 && buf->base[1] == 0x01`
abbrev pub is_request : Bytes → Bool
is_request mem = (byte_at mem 0 == 4) && (byte_at mem 1 == 1)

abbrev pub granted : Bytes
granted = 0 ∷ 90 ∷ 71 ∷ 71 ∷ 71 ∷ 71 ∷ 71 ∷ 71 ∷ []

-- `on_client_read`, for a SOCKS4 request. `strlen` looks for the end of the user name.
pub open_server : Tunnel → Outcome (List Effect × Tunnel)
open_server t = do
  addr ← parse_addr t.client_buf 2
  _username ← c_string (drop 8 t.client_buf)
  ok (
    to_client granted ∷ connect addr ∷ [],
    record t { addr = addr; status = connecting_to_server },
  )

-- `on_client_read`, while the server is being connected: the bytes and a zero byte are put behind
-- those that wait already.
pub hold : Tunnel → ℕ → Outcome (List Effect × Tunnel)
hold t nread = do
  require (ltb (t.server_buf_offset + nread) (length t.server_buf)) out_of_range
  ok (
    [],
    record t {
      server_buf = overwrite t.server_buf_offset (take nread t.client_buf ++ 0 ∷ []) t.server_buf;
      server_buf_offset = t.server_buf_offset + nread;
    },
  )

-- `on_client_read`, for anything else. `accepted` says that `uv_write` returned 0.
pub forward : Tunnel → Status → ℕ → Bool → Outcome (List Effect × Tunnel)
unfolding hold
forward t connected_to_server nread accepted = do
  require accepted assertion
  ok (to_server (take nread t.client_buf) ∷ [], t)
forward t connecting_to_server nread accepted = hold t nread
forward t _ nread accepted = ok ([], t)

-- `on_client_read(stream, nread, buf)`; the buffer is `client_buf`, by `alloc_buffer_client`.
pub on_client_read : Tunnel → Nread → Bool → Outcome (List Effect × Tunnel)
unfolding open_server forward
on_client_read t (count nread) accepted =
    if is_request t.client_buf then open_server t else forward t t.status nread accepted
on_client_read t _ accepted = ok ([], t)

-- `on_server_connect`, by its status
pub on_server_connect : Tunnel → ℤ → List Effect × Life
on_server_connect t (negsuc e) = ([], freed)
on_server_connect t (pos n) = (read_server ∷ [], live (record t { status = connected_to_server }))

-- `on_server_read`, with the `buf->len` bytes at `buf->base`, all of which are written, also those
-- behind the `nread` that were read. Fewer than 50 bytes are printed as a C string.
pub on_server_read : Tunnel → Nread → Bytes → Outcome (List Effect × Tunnel)
on_server_read t (count nread) base = do
  _printed ← if ltb nread 50 then c_string base else ok []
  ok (to_client base ∷ [], t)
on_server_read t _ base = ok ([], t)

-- `on_server_write_end`, at the end of a write to the client
pub on_server_write_end : Tunnel → Tunnel
on_server_write_end t = elim t.status [
  | server_write_end ↦ record t { status = client_write_end }
  | _ ↦ t
]

-- `on_new_client_connection`. The memory of the tunnel is not initialised; `accepted` is what
-- `uv_accept` answers.
pub on_new_client_connection : Tunnel → ℤ → Bool → Option Tunnel
on_new_client_connection memory (negsuc e) accepted = none
on_new_client_connection memory (pos n) true = some (record memory { status = tunnel_start })
on_new_client_connection memory (pos n) false = none

-- What libuv can report to a tunnel. It copies what it reads to the front of the client's buffer.
pub data Event : Type 0 where
  client_data : Bytes → Bool → Event
  client_eof : Event
  client_error : ℕ → Event
  connected : ℤ → Event
  server_data : Nread → Bytes → Event
  written_to_client : Event

abbrev pub received : Tunnel → Bytes → Tunnel
received t ds = record t { client_buf = overwrite 0 ds t.client_buf }

abbrev pub still_live : List Effect × Tunnel → Outcome (List Effect × Life)
still_live r = ok (r.0, live r.1)

-- The callback for an event.
pub step : Tunnel → Event → Outcome (List Effect × Life)
unfolding on_client_read on_server_connect on_server_read on_server_write_end
step t (client_data ds accepted) =
    on_client_read (received t ds) (count (length ds)) accepted >>= still_live
step t client_eof = on_client_read t eof true >>= still_live
step t (client_error k) = on_client_read t (error k) true >>= still_live
step t (connected status) = ok (on_server_connect t status)
step t (server_data nread base) = on_server_read t nread base >>= still_live
step t written_to_client = ok ([], live (on_server_write_end t))

-- The events in order. A callback on a tunnel that was freed reads freed memory.
pub run : Life → List Event → Outcome (List Effect × Life)
unfolding step
run l [] = ok ([], l)
run freed (e ∷ es) = fail use_after_free
run (live t) (e ∷ es) = do r ← step t e; r' ← run r.1 es; ok (r.0 ++ r'.0, r'.1)
