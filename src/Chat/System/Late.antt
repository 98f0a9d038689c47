-- ===== src/Chat/System/Late.antt =====
-- The chat's writes, where libuv reads the shared `sendBuf`s at whatever time.
use learnuv.Base.{
  ℕ, ◌≡◌, refl, sym, ap, subst, ◌∙◌, inl, inr, List, [], ◌∷◌, ◌++◌, Bytes, length, concat, All,
  ◌==◌, if◌then◌else◌, Bool-cases,
}
use learnuv.Buffer.Inv.{contents}
use learnuv.Codec.Stream.{frames}
use learnuv.Chat.Wire.{Wire, Move, moves}
use learnuv.Chat.Wire.Fronts.{made, cuts, IsFront, moves-Whole}
use learnuv.Chat.Server.{Write}
use learnuv.Chat.Server.Broadcast.{texts}
use learnuv.Chat.Server.Recipients.{sent_to}
use learnuv.Chat.Server.Sent.{IsOldest}
use learnuv.Chat.System.{System, Run}
use learnuv.Chat.System.Conserved.{Run-IsConserved}

-- The writes to one connection
abbrev pub writes_to : ℕ → List Write → List Bytes
writes_to d [] = []
writes_to d (w ∷ ws) = if w.conn == d then w.bytes ∷ writes_to d ws else writes_to d ws

concat-writes_to : (d : ℕ) (ws : List Write) → concat (writes_to d ws) ≡ sent_to d ws
concat-writes_to d [] = refl
concat-writes_to d (w ∷ ws) = elim (Bool-cases (w.conn == d)) [
  | inl hit ↦ rw hit (ap (λ x. w.bytes ++ x) (concat-writes_to d ws))
  | inr miss ↦ rw miss (concat-writes_to d ws)
]

writes_to-IsFront :
    (d : ℕ) (all : Bytes) (ws : List Write)
    → All (IsOldest all) ws
    → All (IsFront all 8192) (writes_to d ws)
writes_to-IsFront d all [] h = tt
writes_to-IsFront d all (w ∷ ws) (front, h) = elim (Bool-cases (w.conn == d)) [
  | inl hit ↦ rw hit (front, writes_to-IsFront d all ws h)
  | inr miss ↦ rw miss (writes_to-IsFront d all ws h)
]

-- A `sendBuf` of so many bytes, whatever stands in them, before the first write
abbrev pub unused : Bytes → Wire
unused memory = record { send_buf = memory; waiting = []; out = [] }

-- What was read, and what would be read now for the requests that wait
abbrev pub read_and_waiting : Wire → Bytes
read_and_waiting w = w.out ++ cuts w.waiting w.send_buf

fronts_lem :
    (all memory : Bytes) (size : ℕ) (ms : List Move)
    → length memory ≡ size
    → All (IsFront all size) (made ms)
    → read_and_waiting (moves (unused memory) ms) ≡ concat (made ms)
fronts_lem all memory size ms e h =
    (moves-Whole all (unused memory) ms (subst (λ n. All (IsFront all n) (made ms)) (sym e) h)
      tt).joined

-- In every state of a run: the writes to a connection share its `sendBuf` of 8192 bytes, and those
-- of a client its `sendBuf` of 1024, and each write overwrites the memory, whether or not the
-- earlier ones were read. But at whatever times libuv reads it, what it has read, and what it would
-- read for the writes that wait, are always the bytes of the writes, in order: no byte is lost,
-- since each `sendBuf` is only ever overwritten with beginnings of the same bytes.
pub Run-unharmed :
    {s : System} (i : ℕ) (memory memory' : Bytes) (ms ms' : List Move)
    → Run s
    → length memory ≡ 8192
    → length memory' ≡ 1024
    → made ms ≡ writes_to i s.told
    → made ms' ≡ (s.peers i).asked
    → (read_and_waiting (moves (unused memory) ms) ≡ (s.peers i).received ++ (s.peers i).down)
      × (read_and_waiting (moves (unused memory') ms') ≡ (s.peers i).gone ++ (s.peers i).up)
Run-unharmed {s} i memory memory' ms ms' run size size' told asked =
    let h = Run-IsConserved run in
    let all = frames (texts h.delivered) in
    let typed = contents (s.peers i).client.buffer in
    (
      fronts_lem all memory 8192 ms size
            (subst (All (IsFront all 8192)) (sym told) (writes_to-IsFront i all s.told h.oldest))
          ∙ ap concat told
          ∙ concat-writes_to i s.told
          ∙ sym (h.served i).in_order,
      fronts_lem typed memory' 1024 ms' size'
            (subst (All (IsFront typed 1024)) (sym asked) (h.served i).fronts)
          ∙ ap concat asked
          ∙ sym (h.served i).sent,
    )
