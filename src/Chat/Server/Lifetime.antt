-- ===== src/Chat/Server/Lifetime.antt =====
-- The `Connection` objects of the chat server and their handles (chat/ChatServer.cpp and
-- chat/connection.h).
pub mod Rules
pub mod Histories
use learnuv.Base.{
  ℕ, zero, suc, ◌≡◌, Bool, false, ◌||◌, Option, none, some, List, [], ◌∷◌, ◌++◌, ◌==◌,
  if◌then◌else◌, ok,
}
use learnuv.Base.Int.{ℤ, pos, negsuc}
use learnuv.Chat.Server.{Write, Server, start, Event, connects, ends, handle, IsSound}

-- What the server does with a handle: its `Connection` is made, is written through, or is deleted,
-- and `~Connection` closes the handle.
pub data Use : Type 0 where
  opens : ℕ → Use
  writes : ℕ → Use
  closes : ℕ → Use

-- The loop over `conns` at the end of a stream: `delete(conn)` at the first `it` that is `conn`
pub delete_found : ℕ → List ℕ → List Use
delete_found c [] = []
delete_found c (d ∷ ds) = if d == c then closes c ∷ [] else delete_found c ds

abbrev pub writings : List Write → List Use
writings [] = []
writings (w ∷ ws) = writes w.conn ∷ writings ws

-- `new Connection(connections++, client)`, for an event that returns
pub new_connection : Server → ℤ → List Use
new_connection s (negsuc e) = []
new_connection s (pos n) = opens s.connections ∷ []

-- What a handler does that makes the writes `ws`
pub uses : Server → Event → List Write → List Use
unfolding delete_found new_connection
uses s (connects status got accepted) ws = new_connection s status
uses s (ends conn) ws = delete_found conn s.conns
uses s e ws = writings ws

-- The state after a history of events, and all that was done with the handles
pub data Lived : Server → List Use → Type 0 where
  begins : Lived start []
  goes_on :
      {s t : Server} {us : List Use} (e : Event) (ws : List Write)
      → Lived s us
      → IsSound e
      → handle s e ≡ ok (ws, t)
      → Lived t (us ++ uses s e ws)

-- The rules: a handle is opened under a new number, is written to only while it is open, and is
-- closed only while it is open.
pub record Handles : Type 0 where
  pub open_ones : List ℕ
  pub ever : List ℕ

abbrev pub is_in : ℕ → List ℕ → Bool
is_in c [] = false
is_in c (d ∷ ds) = (d == c) || is_in c ds

abbrev pub without : ℕ → List ℕ → List ℕ
without c [] = []
without c (d ∷ ds) = if d == c then without c ds else d ∷ without c ds

abbrev pub allowed : Use → Handles → Option Handles
allowed (opens c) h =
    if is_in c h.ever
    then none
    else some (record { open_ones = h.open_ones ++ c ∷ []; ever = h.ever ++ c ∷ [] })
allowed (writes c) h = if is_in c h.open_ones then some h else none
allowed (closes c) h =
    if is_in c h.open_ones then some (record h { open_ones = without c h.open_ones }) else none

abbrev pub replay : Handles → List Use → Option Handles
replay h [] = some h
replay h (u ∷ us) = elim (allowed u h) [ none ↦ none | some h' ↦ replay h' us ]

abbrev pub no_handles : Handles
no_handles = record { open_ones = []; ever = [] }

abbrev pub numbers_below : ℕ → List ℕ
numbers_below zero = []
numbers_below (suc n) = numbers_below n ++ n ∷ []

abbrev pub handles_of : Server → Handles
handles_of s = record { open_ones = s.conns; ever = numbers_below s.connections }
