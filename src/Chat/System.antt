-- ===== src/Chat/System.antt =====
-- The chat as a whole (chat/ChatServer.cpp and chat/ChatClient.cpp): one server, and a client at
-- the other end of each connection. A connection carries bytes in order, any number of them at a
-- time.
pub mod Posts
pub mod Invariant
pub mod Clients
pub mod Conserved
pub mod Progress
pub mod Late
pub mod Merge
pub mod OneLine
mod Tests
use learnuv.Chat.Server.Lifetime.{without}
use learnuv.Base.{
  ℕ, ◌^◌, ◌<◌, ◌≡◌, Bool, List, [], ◌++◌, Bytes, length, concat, ◌==◌, if◌then◌else◌, ok, ◌∷◌,
}
use learnuv.Base.Int.{pos, negsuc, ℤ}
use learnuv.Uv.{Nread, count, eof, error, IsEnd}
use learnuv.Chat.Server.{start as start_server, Write, Server, on_read, on_connection}
use learnuv.Chat.Server.Arrivals.{Arrival}
use learnuv.Chat.Server.Recipients.{sent_to}
use learnuv.Chat.Client.{
  start as start_client, Sent, Client, on_read_stdin, on_read_tcp, on_write_end,
}
use learnuv.Chat.Client.Pieces.{sent_bytes}

-- The clients that are there, and the bytes of a read
abbrev pub Reading : Type 0
Reading = List ℕ × Bytes

-- A client, with all its writes, the bytes of them that the server has read, and those that are on
-- their way; the bytes on their way to it, all bytes that it has read, and all messages that it has
-- printed
pub record Peer : Type 0 where
  pub client : Client
  pub asked : List Bytes
  pub gone : Bytes
  pub up : Bytes
  pub down : Bytes
  pub received : Bytes
  pub printed : List Bytes

-- The clients go by the ids that the server gives their connections. `arrivals` are the reads of
-- the server, `heard` all bytes that it has read, and `told` all its writes. `clients` are those
-- that have joined and not left, and `readings` has them for each read, with
-- its bytes.
pub record System : Type 0 where
  pub server : Server
  pub peers : ℕ → Peer
  pub arrivals : List Arrival
  pub heard : Bytes
  pub told : List Write
  pub clients : List ℕ
  pub readings : List Reading

abbrev pub new_peer : Peer
new_peer = record {
  client = start_client;
  asked = [];
  gone = [];
  up = [];
  down = [];
  received = [];
  printed = [];
}

abbrev pub new_system : System
new_system = record {
  server = start_server;
  peers = λ i. new_peer;
  arrivals = [];
  heard = [];
  told = [];
  clients = [];
  readings = [];
}

-- A connection that comes without an error has joined.
abbrev pub joined : ℤ → ℕ → List ℕ → List ℕ
joined (pos n) c cs = cs ++ c ∷ []
joined (negsuc e) c cs = cs

abbrev pub update : (ℕ → Peer) → ℕ → Peer → ℕ → Peer
update peers i p j = if j == i then p else peers j

-- The writes of the server are on their way.
abbrev pub with_writes : List Write → (ℕ → Peer) → ℕ → Peer
with_writes ws peers j = record (peers j) { down = (peers j).down ++ sent_to j ws }

-- One callback of the server or of a client, where it returns. A read takes bytes from the front of
-- those that are on their way. An error number is an `int`.
pub data Step (s : System) : System → Type 0 where
  joins :
      (status : ℤ) (got : Bool) (accepted : ℤ) {t : Server}
      → on_connection s.server status got accepted ≡ ok t
      → Step s (record s { server = t; clients = joined status s.server.connections s.clients })
  leaves :
      (i : ℕ) {ws : List Write} {t : Server}
      → on_read s.server i eof [] ≡ ok (ws, t)
      → Step s (record s { server = t; clients = without i s.clients })
  fails :
      (i k : ℕ) (base : Bytes) {ws : List Write} {t : Server}
      → k < 2 ^ 31
      → length base < 2 ^ 32
      → on_read s.server i (error k) base ≡ ok (ws, t)
      → Step s (record s { server = t })
  hangs_up :
      (i : ℕ) (nread : Nread) (base : Bytes) {ms : List Bytes} {c : Client}
      → IsEnd nread
      → on_read_tcp (s.peers i).client nread base ≡ ok (ms, c)
      → Step s (record s {
        peers =
            update s.peers i
              (record (s.peers i) { client = c; printed = (s.peers i).printed ++ ms });
      })
  has_written :
      (i : ℕ) (status : ℤ)
      → Step s (record s {
        peers =
            update s.peers i
              (record (s.peers i) { client = on_write_end (s.peers i).client status });
      })
  types :
      (i : ℕ) (nread : Nread) (base : Bytes) {ss : List Sent} {c : Client}
      → on_read_stdin (s.peers i).client nread base ≡ ok (ss, c)
      → Step s (record s {
        peers = update s.peers i (record (s.peers i) {
          client = c;
          asked = (s.peers i).asked ++ sent_bytes ss;
          up = (s.peers i).up ++ concat (sent_bytes ss);
        });
      })
  hears :
      (i : ℕ) (x rest : Bytes) {ws : List Write} {t : Server}
      → (s.peers i).up ≡ x ++ rest
      → length x < 2 ^ 32
      → on_read s.server i (count (length x)) x ≡ ok (ws, t)
      → Step s (record {
        server = t;
        peers =
            with_writes ws
              (update s.peers i (record (s.peers i) { gone = (s.peers i).gone ++ x; up = rest }));
        arrivals = s.arrivals ++ (i, x) ∷ [];
        heard = s.heard ++ x;
        told = s.told ++ ws;
        clients = s.clients;
        readings = s.readings ++ (s.clients, x) ∷ [];
      })
  prints :
      (i : ℕ) (x rest : Bytes) {ms : List Bytes} {c : Client}
      → (s.peers i).down ≡ x ++ rest
      → length x < 2 ^ 32
      → on_read_tcp (s.peers i).client (count (length x)) x ≡ ok (ms, c)
      → Step s (record s {
        peers = update s.peers i (record (s.peers i) {
          client = c;
          down = rest;
          received = (s.peers i).received ++ x;
          printed = (s.peers i).printed ++ ms;
        });
      })

-- A run of the chat, up to some state
pub data Run : System → Type 0 where
  begins : Run new_system
  then_step : {s t : System} → Run s → Step s t → Run t
