-- ===== src/Chat/System/Invariant.antt =====
-- What the server and the clients of the chat have of each other's bytes.
use learnuv.Base.{
  ℕ, ◌≡◌, sym, ap, subst, ◌∙◌, inl, inr, List, ◌++◌, append_assoc, Bytes, All, ◌==◌, Bool-cases,
  ==→eq, concat,
}
use learnuv.Buffer.{new}
use learnuv.Buffer.Inv.{contents}
use learnuv.Codec.Stream.{Decodes, frames}
use learnuv.Codec.Feed.{IsReady}
use learnuv.Chat.Wire.Fronts.{IsFront}
use learnuv.Chat.Server.{Write, Server}
use learnuv.Chat.Server.Broadcast.{texts}
use learnuv.Chat.Server.Recipients.{sent_to, sent_to-append}
use learnuv.Chat.Server.Sent.{IsOldest}
use learnuv.Chat.Server.Safety.{IsSafe}
use learnuv.Chat.Client.Input.{IsWell}
use learnuv.Chat.System.{Peer, System, update, with_writes}
use learnuv.Chat.System.Posts.{IsPosted}

-- The client `i` has read a beginning of what the server has written to it, and printed what this
-- beginning contains. The server has read a beginning of what the client has written, and each of
-- the client's writes is a beginning of its buffer of frames, of 1024 bytes at most.
pub record IsServed (told : List Write) (i : ℕ) (p : Peer) : Type 0 where
  pub ready : IsReady p.client.codec
  pub in_order : p.received ++ p.down ≡ sent_to i told
  pub reads : Decodes p.received p.printed (contents p.client.codec.buffer)
  pub well : IsWell p.client
  pub fronts : All (IsFront (contents p.client.buffer) 1024) p.asked
  pub sent : p.gone ++ p.up ≡ concat p.asked

-- The server has delivered what its reads contain, and its writes are the broadcasts of what it has
-- delivered, each a beginning of all their frames.
pub record IsConserved (s : System) : Type 0 where
  pub safe : IsSafe s.server
  pub delivered : List Bytes
  pub reads : Decodes s.heard delivered (contents s.server.codec.buffer)
  pub holds : contents s.server.buf ≡ frames (texts delivered)
  pub oldest : All (IsOldest (frames (texts delivered))) s.told
  pub posted :
      IsPosted s.readings
        (contents s.server.codec.buffer)
        (frames (texts delivered))
        s.told
        delivered
  pub present : s.clients ≡ s.server.conns
  pub served : (i : ℕ) → IsServed s.told i (s.peers i)

pub update-IsServed :
    (told : List Write) (peers : ℕ → Peer) (i : ℕ) (p : Peer)
    → IsServed told i p
    → ((j : ℕ) → IsServed told j (peers j))
    → (j : ℕ) → IsServed told j (update peers i p j)
update-IsServed told peers i p new old j = elim (Bool-cases (j == i)) [
  | inl hit ↦ rw hit (subst (λ j. IsServed told j p) (sym (==→eq hit)) new)
  | inr miss ↦ rw miss (old j)
]

pub with_writes-IsServed :
    (told ws : List Write) (peers : ℕ → Peer)
    → ((j : ℕ) → IsServed told j (peers j))
    → (j : ℕ) → IsServed (told ++ ws) j (with_writes ws peers j)
with_writes-IsServed told ws peers old j = record {
  ready = (old j).ready;
  in_order =
      sym (append_assoc (peers j).received (peers j).down (sent_to j ws))
      ∙ ap (λ x. x ++ sent_to j ws) (old j).in_order
      ∙ sym (sent_to-append j told ws);
  reads = (old j).reads;
  well = (old j).well;
  fronts = (old j).fronts;
  sent = (old j).sent;
}

-- The server's own part stays the same, where only its list of connections changes, along with the
-- clients that are there.
pub same_buffers :
    (s : System) (t : Server) (cs : List ℕ)
    → IsConserved s
    → IsSafe t
    → cs ≡ t.conns
    → t.codec ≡ s.server.codec
    → t.buf ≡ s.server.buf
    → IsConserved (record s { server = t; clients = cs })
same_buffers s t cs h safe there codec buf = record {
  safe = safe;
  delivered = h.delivered;
  reads = subst (λ c. Decodes s.heard h.delivered (contents c.buffer)) (sym codec) h.reads;
  holds = ap contents buf ∙ h.holds;
  oldest = h.oldest;
  posted =
      subst
        (λ c.
          IsPosted s.readings (contents c.buffer) (frames (texts h.delivered)) s.told h.delivered)
        (sym codec) h.posted;
  present = there;
  served = h.served;
}
