-- ===== src/Chat/System/Posts.antt =====
-- The writes of the chat server, message by message: each one goes to the connections that were
-- registered when it was delivered.
use learnuv.Base.{
  ℕ, ◌+◌, ◌≤◌, ◌≡◌, refl, sym, ap, ap₂, ◌∙◌, List, [], ◌∷◌, ◌++◌, append_assoc, arith, Bytes,
  length, take, All, All-append, length-append, take-append,
}
use learnuv.Uv.{before_zero}
use learnuv.Chat.Server.{Write}
use learnuv.Chat.Server.Broadcast.{to_all, texts}
use learnuv.Chat.Server.Input.{IsDistinct}
use learnuv.Chat.Server.History.{broadcasts}
use learnuv.Chat.Server.Growth.{IsFitting}
use learnuv.Codec.Stream.{Decodes}
use learnuv.Chat.System.{Reading}

pub record Post : Type 0 where
  pub conns : List ℕ
  pub message : Bytes

abbrev pub messages_of : List Post → List Bytes
messages_of [] = []
messages_of (p ∷ ps) = p.message ∷ messages_of ps

-- As many of the first bytes of `all` as the frame of each text has
abbrev pub writes_of : Bytes → List Post → List Write
writes_of all [] = []
writes_of all (p ∷ ps) =
    to_all p.conns (take (length (before_zero p.message) + 4) all) ++ writes_of all ps

-- The connections are distinct, and the frame is no longer than `all`.
abbrev pub IsPost : Bytes → Post → Type 0
IsPost all p = IsDistinct p.conns × (length (before_zero p.message) + 4 ≤ length all)

abbrev pub posted_to : List ℕ → List Bytes → List Post
posted_to cs [] = []
posted_to cs (m ∷ ms) = record { conns = cs; message = m } ∷ posted_to cs ms

-- The posts of these reads, joined to one stream, with the bytes at its end that are not read yet:
-- each message goes to the clients that are there at the read that completes it.
pub data Posted : List Reading → List Post → Bytes → Type 0 where
  silence : Posted [] [] []
  posts_more :
      {rs : List Reading} {ps : List Post} {rest : Bytes} (cs : List ℕ) (x rest' : Bytes)
      (ms : List Bytes)
      → Posted rs ps rest
      → Decodes (rest ++ x) ms rest'
      → Posted (rs ++ (cs, x) ∷ []) (ps ++ posted_to cs ms) rest'

-- The writes `told` are the broadcasts of the messages `delivered`, each to the clients that were
-- there.
pub record IsPosted (rs : List Reading) (rest all : Bytes) (told : List Write)
    (delivered : List Bytes) : Type 0 where
  pub posts : List Post
  pub there : Posted rs posts rest
  pub messages : messages_of posts ≡ delivered
  pub writes : told ≡ writes_of all posts
  pub each : All (IsPost all) posts

messages_of-append : (ps qs : List Post) → messages_of (ps ++ qs) ≡ messages_of ps ++ messages_of qs
messages_of-append [] qs = refl
messages_of-append (p ∷ ps) qs = ap (◌∷◌ p.message) (messages_of-append ps qs)

messages_of-posted_to : (cs : List ℕ) (ms : List Bytes) → messages_of (posted_to cs ms) ≡ ms
messages_of-posted_to cs [] = refl
messages_of-posted_to cs (m ∷ ms) = ap (◌∷◌ m) (messages_of-posted_to cs ms)

writes_of-append :
    (all : Bytes) (ps qs : List Post)
    → writes_of all (ps ++ qs) ≡ writes_of all ps ++ writes_of all qs
writes_of-append all [] qs = refl
writes_of-append all (p ∷ ps) qs =
    let first = to_all p.conns (take (length (before_zero p.message) + 4) all) in
    ap (λ ws. first ++ ws) (writes_of-append all ps qs)
    ∙ sym (append_assoc first (writes_of all ps) (writes_of all qs))

writes_of-posted_to :
    (cs : List ℕ) (all : Bytes) (ms : List Bytes)
    → writes_of all (posted_to cs ms) ≡ broadcasts cs all (texts ms)
writes_of-posted_to cs all [] = refl
writes_of-posted_to cs all (m ∷ ms) =
    ap (λ ws. to_all cs (take (length (before_zero m) + 4) all) ++ ws)
      (writes_of-posted_to cs all ms)

posted_to-All :
    (cs : List ℕ) (all : Bytes) (ms : List Bytes)
    → IsDistinct cs
    → IsFitting all (texts ms)
    → All (IsPost all) (posted_to cs ms)
posted_to-All cs all [] distinct h = tt
posted_to-All cs all (m ∷ ms) distinct (h, hs) =
    ((distinct, h), posted_to-All cs all ms distinct hs)

writes_of-grow :
    (all more : Bytes) (ps : List Post)
    → All (IsPost all) ps
    → (writes_of (all ++ more) ps ≡ writes_of all ps) × All (IsPost (all ++ more)) ps
writes_of-grow all more [] h = (refl, tt)
writes_of-grow all more (p ∷ ps) ((distinct, h), hs) =
    let (same, each) = writes_of-grow all more ps hs in
    (
      ap₂ (λ x ws. to_all p.conns x ++ ws)
          (take-append (length (before_zero p.message) + 4) all more h) same,
      ((distinct, omega (arith, length-append all more)), each),
    )

-- More messages are delivered, to the connections that are registered then.
pub IsPosted-append :
    {rs : List Reading} {rest all : Bytes} {told : List Write} {delivered : List Bytes}
    (x rest' more : Bytes) (cs : List ℕ) (ws : List Write) (ms : List Bytes)
    → IsPosted rs rest all told delivered
    → Decodes (rest ++ x) ms rest'
    → IsDistinct cs
    → IsFitting (all ++ more) (texts ms)
    → ws ≡ broadcasts cs (all ++ more) (texts ms)
    → IsPosted (rs ++ (cs, x) ∷ []) rest' (all ++ more) (told ++ ws) (delivered ++ ms)
IsPosted-append {rs} {rest} {all} {told} {delivered} x rest' more cs ws ms h reads distinct fits
      sends =
    let (same, each) = writes_of-grow all more h.posts h.each in
    record {
      posts = h.posts ++ posted_to cs ms;
      there = posts_more cs x rest' ms h.there reads;
      messages =
          messages_of-append h.posts (posted_to cs ms)
          ∙ ap₂ ◌++◌ h.messages (messages_of-posted_to cs ms);
      writes =
          ap₂ ◌++◌ (h.writes ∙ sym same) (sends ∙ sym (writes_of-posted_to cs (all ++ more) ms))
          ∙ sym (writes_of-append (all ++ more) h.posts (posted_to cs ms));
      each =
          All-append (IsPost (all ++ more)) h.posts (posted_to cs ms) each
            (posted_to-All cs (all ++ more) ms distinct fits);
    }
