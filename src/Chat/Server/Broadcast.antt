-- ===== src/Chat/Server/Broadcast.antt =====
-- What the clients of the chat server are sent.
use learnuv.Base.{
  ℕ, ◌+◌, ◌≤◌, ◌≡◌, refl, ap, ◌∙◌, inr, List, [], ◌∷◌, ◌++◌, arith, Bytes, length, take,
  length-append, ok, length-take, ap₂, All,
}
use learnuv.Buffer.{max_size, peek, Buffer}
use learnuv.Buffer.Inv.{IsValid, contents}
use learnuv.Buffer.Retrieve.{take-peek}
use learnuv.Codec.Stream.{framed}
use learnuv.Codec.Feed.{IsReady}
use learnuv.Codec.RoundTrip.{encode_lem}
use learnuv.Uv.{before_zero, c_string-before_zero, IsText, before_zero-IsText}
use learnuv.Chat.Server.{Write, Server, send_all, on_string_message_back}

unfoldable pub to_all : List ℕ → Bytes → List Write
to_all [] bytes = []
to_all (c ∷ cs) bytes = record { conn = c; bytes = bytes } ∷ to_all cs bytes

send_all_lem :
    (cs : List ℕ) (mem : Bytes) (len : ℕ)
    → len ≤ length mem
    → len ≤ 8192
    → send_all cs mem len ≡ ok (to_all cs (take len mem))
unfolding send_all to_all
send_all_lem [] mem len h k = refl
send_all_lem (c ∷ cs) mem len h k = ground (arith, send_all_lem cs mem len h k)

-- The state between two events: valid buffers, a broadcast buffer from which nothing was read, and
-- distinct connections below the next id.
pub record IsWell (s : Server) : Type 0 where
  pub buf_valid : IsValid s.buf
  pub unread : s.buf.reader_index ≡ 0
  pub codec_ready : IsReady s.codec

sent_lem :
    (cs : List ℕ) (c : Buffer) (old m : Bytes)
    → IsValid c
    → contents c ≡ old ++ framed m
    → length m + 4 ≤ 8192
    → send_all cs (peek c) (length m + 4) ≡ ok (to_all cs (take (length m + 4) (old ++ framed m)))
sent_lem cs c old m v holds small =
    send_all_lem cs (peek c) (length m + 4) seen small
    ∙ ap (λ xs. ok (to_all cs xs))
        (take-peek (length m + 4) v enough ∙ ap (take (length m + 4)) holds)
  where
    enough : length m + 4 ≤ length (contents c)
    enough = omega (arith, ap length holds, length-append old (framed m))

    seen : length m + 4 ≤ length (peek c)
    seen = omega (
      arith,
      length-take (length m + 4) (contents c),
      length-take (length m + 4) (peek c),
      ap length (take-peek (length m + 4) v enough),
      enough,
    )

-- The texts that are framed for messages.
abbrev pub texts : List Bytes → List Bytes
texts [] = []
texts (m ∷ ms) = before_zero m ∷ texts ms

pub texts-IsText : (ms : List Bytes) → All IsText ms → texts ms ≡ ms
texts-IsText [] h = refl
texts-IsText (m ∷ ms) h = ap₂ ◌∷◌ (before_zero-IsText m h.0) (texts-IsText ms h.1)

-- `onStringMessageBack` of a message whose text fits sends every connection the same bytes: as many
-- as the frame of the text has, but the oldest ones of the broadcast buffer, from which nothing is
-- ever removed.
pub broadcast_lem :
    (s : Server) (m : Bytes)
    → IsWell s
    → length (before_zero m) + 4 ≤ 8192
    → s.buf.writer_index + 4 + length (before_zero m) ≤ max_size
    → (t : Server) × (on_string_message_back s m
        ≡ ok (
          to_all s.conns
              (take (length (before_zero m) + 4) (contents s.buf ++ framed (before_zero m))),
          t,
        ))
      × IsWell t
      × (contents t.buf ≡ contents s.buf ++ framed (before_zero m))
      × (t.conns ≡ s.conns)
      × (t.buf.writer_index ≡ s.buf.writer_index + 4 + length (before_zero m))
      × (t.codec ≡ s.codec)
unfolding on_string_message_back
broadcast_lem s m w small room =
    let text = before_zero m in
    let (c, encoded, vc, holds, same, at_end) =
      encode_lem text w.buf_valid (omega arith) (inr (w.unread, room)) in
    (
      record s { buf = c },
      rw (c_string-before_zero m [])
          (rw encoded (rw (sent_lem s.conns c (contents s.buf) text vc holds small))),
      record { buf_valid = vc; unread = same ∙ w.unread; codec_ready = w.codec_ready },
      holds,
      refl,
      at_end,
      refl,
    )
