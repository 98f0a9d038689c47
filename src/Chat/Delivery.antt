-- ===== src/Chat/Delivery.antt =====
-- A line on its way from one client through the server to the others (chat/ChatClient.cpp and
-- chat/ChatServer.cpp together).
use learnuv.Base.{
  ℕ, ◌+◌, ◌≤◌, ◌<◌, ◌≡◌, refl, sym, ap, ap₂, ◌∙◌, inl, List, [], ◌∷◌, ◌++◌, append-nil, arith,
  Bytes, length, take, concat, All, take_all, take-append, ok, zero, suc, replicate, length-append,
}
use learnuv.Buffer.{max_size}
use learnuv.Buffer.Inv.{contents}
use learnuv.Codec.Stream.{framed, frames, IsDeliverable}
use learnuv.Uv.{IsText}
use learnuv.Chat.Server.{Server, Write}
use learnuv.Chat.Server.Broadcast.{texts-IsText}
use learnuv.Chat.Server.Input.{Has}
use learnuv.Chat.Server.Arrivals.{Arrival, on_reads, pieces, IsData}
use learnuv.Chat.Server.History.{repeated, on_reads-broadcasts, broadcasts-same, broadcasts}
use learnuv.Chat.Server.Recipients.{sent_to, sent_to-repeated}
use learnuv.Chat.Server.Safety.{IsSafe}
use learnuv.Chat.Client.{Client}
use learnuv.Chat.Client.Input.{IsWell as IsWellClient}
use learnuv.Chat.Client.Reads.{tcp_reads, cut, IsWaiting, tcp_reads-frames}

-- A server to which no part of a message has come, and which has broadcast nothing yet.
pub record IsFresh (s : Server) : Type 0 where
  pub safe : IsSafe s
  pub nothing_read : contents s.codec.buffer ≡ []
  pub nothing_sent : contents s.buf ≡ []

same-IsDeliverable :
    (n : ℕ) (ms : List Bytes) → 0 < n → n ≤ 4096 → All (λ x. length x ≡ n) ms → IsDeliverable ms []
same-IsDeliverable n [] some_text small h = tt
same-IsDeliverable n (m ∷ ms) some_text small h =
    (omega (arith, h.0), omega (arith, h.0), same-IsDeliverable n ms some_text small h.1)

repeat-same : (k : ℕ) (m : Bytes) → All (λ x. length x ≡ length m) (replicate k m)
repeat-same zero m = tt
repeat-same (suc k) m = (refl, repeat-same k m)

length-frames-same :
    (m : Bytes) (ms : List Bytes)
    → All (λ x. length x ≡ length m) ms
    → length (frames (replicate (length ms) m)) ≡ length (frames ms)
length-frames-same m [] h = refl
length-frames-same m (x ∷ ms) h = omega (
  arith,
  h.0,
  length-frames-same m ms h.1,
  length-append (framed m) (frames (replicate (length ms) m)),
  length-append (framed x) (frames ms),
)

-- The server's part.
broadcast_lem :
    (s : Server) (xs : List Arrival) (m : Bytes) (ms : List Bytes)
    → IsFresh s
    → All IsData xs
    → All IsText (m ∷ ms)
    → 0 < length m
    → length m ≤ 4096
    → All (λ x. length x ≡ length m) ms
    → concat (pieces xs) ≡ frames (m ∷ ms)
    → s.codec.buffer.writer_index + length (frames (m ∷ ms)) ≤ length s.codec.buffer.buffer
    → s.buf.writer_index + length (frames (m ∷ ms)) ≤ max_size
    → (t : Server) × (on_reads s xs ≡ ok (repeated s.conns (length (m ∷ ms)) (framed m), t))
broadcast_lem s xs m ms w some_data text some_text small same arrived room room' =
    let plain = texts-IsText (m ∷ ms) text in
    let (t, sent, _, _, _, _) =
      on_reads-broadcasts s xs (m ∷ ms) [] w.safe.well some_data
        (same-IsDeliverable (length m) (m ∷ ms) some_text small (refl, same)) (inl (omega arith))
        (ap₂ (λ x y. x ++ y) w.nothing_read arrived ∙ sym (append-nil (frames (m ∷ ms))))
        (rw arrived room) (omega (arith, ap (λ x. length (frames x)) plain)) in
    let oldest : take (length m + 4) (contents s.buf ++ frames (m ∷ ms)) ≡ framed m =
      ap (λ x. take (length m + 4) (x ++ frames (m ∷ ms))) w.nothing_sent
      ∙ take-append (length m + 4) (framed m) (frames ms) (omega arith)
      ∙ take_all (length m + 4) (framed m) (omega arith) in
    (
      t,
      sent
          ∙ ap (λ x. ok (broadcasts s.conns (contents s.buf ++ frames x) x, t)) plain
          ∙ ap (λ ws. ok (ws, t))
              (broadcasts-same s.conns (length m) (contents s.buf ++ frames (m ∷ ms)) (framed m)
                (m ∷ ms) oldest (refl, same)),
    )

-- Texts of one length, whose frames reach a server that has broadcast nothing yet, in any reads of
-- any connections: every client prints the first text, once for each of them, and none of the
-- others. Each registered connection is written the first frame so often, and a client that waits
-- for a message and reads this in any pieces prints it. The buffers must have room for the frames.
pub repeats_lem :
    (s : Server) (receiver : Client) (d : ℕ) (m : Bytes) (ms : List Bytes) (xs : List Arrival)
    (sizes : List ℕ)
    → IsFresh s
    → Has d s.conns
    → IsWaiting receiver
    → All IsText (m ∷ ms)
    → 0 < length m
    → length m ≤ 4096
    → All (λ x. length x ≡ length m) ms
    → All IsData xs
    → concat (pieces xs) ≡ frames (m ∷ ms)
    → s.codec.buffer.writer_index + length (frames (m ∷ ms)) ≤ length s.codec.buffer.buffer
    → s.buf.writer_index + length (frames (m ∷ ms)) ≤ max_size
    → receiver.codec.buffer.writer_index + length (frames (m ∷ ms))
      ≤ length receiver.codec.buffer.buffer
    → (ws : List Write) × (t : Server) × (receiver' : Client) × (on_reads s xs ≡ ok (ws, t))
      × (tcp_reads receiver (cut sizes (sent_to d ws))
          ≡ ok (replicate (length (m ∷ ms)) m, receiver'))
      × IsWaiting receiver'
repeats_lem s receiver d m ms xs sizes fresh has waiting text some_text small same some_data arrived
      read_room send_room print_room =
    let (t, sent) =
      broadcast_lem s xs m ms fresh some_data text some_text small same arrived read_room
        send_room in
    let k = length (m ∷ ms) in
    let (receiver', printed, again) =
      tcp_reads-frames receiver sizes (replicate k m) waiting
        (same-IsDeliverable (length m) (replicate k m) some_text small (repeat-same k m))
        (omega (arith, length-frames-same m (m ∷ ms) (refl, same))) in
    (
      repeated s.conns k (framed m),
      t,
      receiver',
      sent,
      ap (λ x. tcp_reads receiver (cut sizes x))
            (sent_to-repeated d s.conns k m fresh.safe.registered.distinct has)
          ∙ printed,
      again,
    )
