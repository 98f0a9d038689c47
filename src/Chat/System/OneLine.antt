-- ===== src/Chat/System/OneLine.antt =====
-- A chat in which one line is typed.
use learnuv.Base.{
  ℕ, ◌+◌, ◌≤◌, ◌<◌, ◌≡◌, ◌≢◌, sym, ap, ◌∙◌, ◌⊎◌, inl, inr, List, [], ◌∷◌, ◌++◌, append-nil,
  append_assoc, Bytes, length, concat, refl, ap₂, arith, take, All, take_all, ◌==◌, Bool-cases,
  ==→eq, ==-false→ne,
}
use learnuv.Codec.Stream.{framed, frames}
use learnuv.Codec.Beginnings.{IsAtMost, Decodes-IsAtMost}
use learnuv.Uv.{IsText, before_zero, before_zero-IsText}
use learnuv.Chat.Server.{Write}
use learnuv.Chat.Server.Broadcast.{texts, to_all}
use learnuv.Chat.Server.Input.{Has, IsDistinct}
use learnuv.Chat.Server.Recipients.{sent_to, sent_to-absent, sent_to-to_all}
use learnuv.Buffer.Inv.{contents}
use learnuv.Chat.System.{System, Run, Reading}
use learnuv.Chat.System.Posts.{IsPosted, Post, messages_of, writes_of, IsPost}
use learnuv.Chat.System.Conserved.{Run-IsConserved}
use learnuv.Chat.System.Merge.{bytes_of, Run-IsMerged, append_empty, bytes_of-alone}

Has-or-not : (j : ℕ) (cs : List ℕ) → Has j cs ⊎ (¬ Has j cs)
Has-or-not j [] = inr (λ h. h)
Has-or-not j (c ∷ cs) = elim (Bool-cases (j == c)) [
  | inl hit ↦ inl (inl (==→eq hit))
  | inr miss ↦ elim (Has-or-not j cs) [
    | inl later ↦ inl (inr later)
    | inr never ↦ inr (elim [ inl e ↦ ==-false→ne miss e | inr later ↦ never later ])
  ]
]

-- One broadcast reaches a connection once, or not at all.
to_all-once :
    (j : ℕ) (cs : List ℕ) (x : Bytes)
    → IsDistinct cs
    → (t : Bytes) × (sent_to j (to_all cs x) ++ t ≡ x)
to_all-once j cs x distinct = elim (Has-or-not j cs) [
  | inl there ↦ ([], append-nil (sent_to j (to_all cs x)) ∙ sent_to-to_all j cs x distinct there)
  | inr away ↦ (x, ap (λ y. y ++ x) (sent_to-absent j cs x away))
]

none_posted : (all : Bytes) (ps : List Post) → messages_of ps ≡ [] → writes_of all ps ≡ []
none_posted all [] e = refl
none_posted all (p ∷ ps) e = absurd (ground arith)

one_posted :
    (j : ℕ) (m all : Bytes) (ps : List Post)
    → messages_of ps ≡ m ∷ []
    → All (IsPost all) ps
    → take (length (before_zero m) + 4) all ≡ framed m
    → (t : Bytes) × (sent_to j (writes_of all ps) ++ t ≡ framed m)
one_posted j m all [] e h front = absurd (ground arith)
one_posted j m all (p ∷ q ∷ ps) e h front = absurd (ground arith)
one_posted j m all (p ∷ []) e ((distinct, _), _) front =
    let same : p.message ≡ m = ground arith in
    let sent = to_all p.conns (take (length (before_zero p.message) + 4) all) in
    let (t, once) =
      to_all-once j p.conns (take (length (before_zero p.message) + 4) all) distinct in
    (
      t,
      ap (λ ws. sent_to j ws ++ t) (append-nil sent)
          ∙ once
          ∙ ap (λ x. take (length (before_zero x) + 4) all) same
          ∙ front,
    )

-- Each connection is sent the frame of the one message once, or nothing.
posted-sent_to :
    (j : ℕ) (m rest : Bytes) (rs : List Reading) (told : List Write) (delivered : List Bytes)
    → IsText m
    → IsAtMost m delivered
    → IsPosted rs rest (frames (texts delivered)) told delivered
    → (t : Bytes) × (sent_to j told ++ t ≡ framed m)
posted-sent_to j m rest rs told delivered plain (inl nothing) p = (
  framed m,
  ap (λ ws. sent_to j ws ++ framed m)
      (p.writes ∙ none_posted (frames (texts delivered)) p.posts (p.messages ∙ nothing)),
)
posted-sent_to j m rest rs told delivered plain (inr one) p =
    let all = frames (texts delivered) in
    let same = before_zero-IsText m plain in
    let whole : all ≡ framed m =
      ap (λ ms. frames (texts ms)) one ∙ append-nil (framed (before_zero m)) ∙ ap framed same in
    let front : take (length (before_zero m) + 4) all ≡ framed m =
      ap₂ (λ k x. take (length k + 4) x) same whole
      ∙ take_all (length m + 4) (framed m) (omega arith) in
    let (t, sent) = one_posted j m all p.posts (p.messages ∙ one) p.each front in
    (t, ap (λ ws. sent_to j ws ++ t) p.writes ∙ sent)

-- If in a run one client has written the frame of one line of text, and the others have written
-- nothing, then every client has printed either nothing or exactly this line, and that once,
-- whatever connections come and go and however the bytes are cut.
pub Run-one_line :
    {s : System} (i j : ℕ) (m : Bytes)
    → Run s
    → 0 < length m
    → length m ≤ 4096
    → IsText m
    → (s.peers i).asked ≡ framed m ∷ []
    → ((k : ℕ) → k ≢ i → (s.peers k).asked ≡ [])
    → ((s.peers j).printed ≡ []) ⊎ ((s.peers j).printed ≡ m ∷ [])
Run-one_line {s} i j m run some_text short plain asked others =
    let h = Run-IsConserved run in
    let merged = Run-IsMerged run in
    let silent : (k : ℕ) → k ≢ i → bytes_of k s.arrivals ≡ [] = λ k other.
      merged.parts k
      ∙ (append_empty (s.peers k).gone (s.peers k).up
          ((h.served k).sent ∙ ap concat (others k other))).0 in
    let heard : s.heard ++ (s.peers i).up ≡ framed m =
      ap (λ x. x ++ (s.peers i).up)
        (sym merged.whole ∙ bytes_of-alone i s.arrivals silent ∙ merged.parts i)
      ∙ (h.served i).sent
      ∙ ap concat asked
      ∙ append-nil (framed m) in
    let delivered = Decodes-IsAtMost m (s.peers i).up some_text short h.reads heard in
    let (t, sent) =
      posted-sent_to j m (contents s.server.codec.buffer) s.readings s.told h.delivered plain
        delivered h.posted in
    Decodes-IsAtMost m ((s.peers j).down ++ t) some_text short (h.served j).reads (
      sym (append_assoc (s.peers j).received (s.peers j).down t)
      ∙ ap (λ x. x ++ t) (h.served j).in_order
      ∙ sent)
