-- ===== src/Chat/Wire.antt =====
-- When the bytes of a write are read (chat/ChatClient.cpp, chat/connection.h). `sendRawContent` and
-- `Connection::send` copy them to a `sendBuf` and give libuv a reference to it; libuv reads the
-- memory some time before it calls back, the requests in the order in which they were made.
pub mod Fronts
pub mod Queue
use learnuv.Base.{ℕ, ◌≡◌, ap, List, [], ◌∷◌, ◌++◌, Bytes, length, take, overwrite}

-- `sendBuf`, the lengths of the requests that wait, the oldest first, and the bytes that were read
-- for the other side
pub record Wire : Type 0 where
  pub send_buf : Bytes
  pub waiting : List ℕ
  pub out : Bytes

-- A request is made, or the oldest one that waits is read.
pub data Move : Type 0 where
  make : Bytes → Move
  take_oldest : Move

-- `memcpy(sendBuf, buf, len)` and `uv_write`
pub post : Wire → Bytes → Wire
post w x = record w { send_buf = overwrite 0 x w.send_buf; waiting = w.waiting ++ length x ∷ [] }

read_next : List ℕ → Wire → Wire
read_next [] w = w
read_next (n ∷ ns) w = record w { waiting = ns; out = w.out ++ take n w.send_buf }

pub read_oldest : Wire → Wire
unfolding read_next
read_oldest w = read_next w.waiting w

pub moves : Wire → List Move → Wire
unfolding post read_oldest
moves w [] = w
moves w (make x ∷ ms) = moves (post w x) ms
moves w (take_oldest ∷ ms) = moves (read_oldest w) ms

pub read_oldest-cons :
    (w : Wire) (n : ℕ) (ns : List ℕ)
    → w.waiting ≡ n ∷ ns
    → read_oldest w ≡ record w { waiting = ns; out = w.out ++ take n w.send_buf }
unfolding read_oldest
read_oldest-cons w n ns e = ap (λ q. read_next q w) e

pub read_oldest-none : (w : Wire) → w.waiting ≡ [] → read_oldest w ≡ w
unfolding read_oldest
read_oldest-none w e = ap (λ q. read_next q w) e
