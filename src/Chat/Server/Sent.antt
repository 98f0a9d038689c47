-- ===== src/Chat/Server/Sent.antt =====
-- What a broadcast of the chat server sent and kept, where it returned.
use learnuv.Base.{
  ℕ, ◌≤◌, ◌≡◌, refl, sym, ap, subst, ◌∙◌, List, [], ◌∷◌, ◌++◌, append_assoc, arith, Bytes, length,
  take, All, All-append, length-append, take-append, bind-ok, ok_injective, ap₂, append-nil, leb,
  out_of_range, ok, require, ◌+◌,
}
use learnuv.Buffer.{peek}
use learnuv.Buffer.Inv.{contents}
use learnuv.Buffer.Retrieve.{take-peek}
use learnuv.Codec.{encode}
use learnuv.Codec.Stream.{framed, frames}
use learnuv.Codec.RoundTrip.{encode-Appended}
use learnuv.Uv.{before_zero, c_string, c_string-before_zero, length-before_zero}
use learnuv.Chat.Wire.Fronts.{IsFront}
use learnuv.Chat.Server.{Write, Server, send, send_all, on_string_message_back, deliver}
use learnuv.Chat.Server.Broadcast.{to_all, IsWell, texts}
use learnuv.Chat.Server.History.{broadcasts}
use learnuv.Chat.Server.Growth.{IsFitting, IsFitting-append, broadcasts-grow, broadcasts-append}

texts-append : (ms ms' : List Bytes) → texts (ms ++ ms') ≡ texts ms ++ texts ms'
texts-append [] ms' = refl
texts-append (m ∷ ms) ms' = ap (◌∷◌ (before_zero m)) (texts-append ms ms')

frames-append : (ms ms' : List Bytes) → frames (ms ++ ms') ≡ frames ms ++ frames ms'
frames-append [] ms' = refl
frames-append (m ∷ ms) ms' =
    ap (λ x. framed m ++ x) (frames-append ms ms')
    ∙ sym (append_assoc (framed m) (frames ms) (frames ms'))

pub frames-texts_append :
    (ms ms' : List Bytes) → frames (texts (ms ++ ms')) ≡ frames (texts ms) ++ frames (texts ms')
frames-texts_append ms ms' = ap frames (texts-append ms ms') ∙ frames-append (texts ms) (texts ms')

-- The bytes of a write are the first ones of a string, and fit into `sendBuf`.
abbrev pub IsOldest : Bytes → Write → Type 0
IsOldest all w = IsFront all 8192 w.bytes

pub IsOldest-append :
    (all more : Bytes) (ws : List Write) → All (IsOldest all) ws → All (IsOldest (all ++ more)) ws
IsOldest-append all more [] h = tt
IsOldest-append all more (w ∷ ws) ((k, short, fits, e), h) = (
  (k, omega (arith, length-append all more), fits, e ∙ sym (take-append k all more short)),
  IsOldest-append all more ws h,
)

to_all-IsOldest :
    (cs : List ℕ) (all : Bytes) (k : ℕ)
    → k ≤ length all
    → k ≤ 8192
    → All (IsOldest all) (to_all cs (take k all))
unfolding to_all
to_all-IsOldest [] all k h fits = tt
to_all-IsOldest (c ∷ cs) all k h fits = ((k, h, fits, refl), to_all-IsOldest cs all k h fits)

-- The broadcasts of messages, from the state `s` to `t`.
pub record Broadcasts (s : Server) (ms : List Bytes) (ws : List Write) (t : Server) : Type 0 where
  pub well : IsWell t
  pub conns : t.conns ≡ s.conns
  pub connections : t.connections ≡ s.connections
  pub codec : t.codec ≡ s.codec
  pub holds : contents t.buf ≡ contents s.buf ++ frames (texts ms)
  pub oldest : All (IsOldest (contents t.buf)) ws
  pub fits : IsFitting (contents t.buf) (texts ms)
  pub sends : ws ≡ broadcasts s.conns (contents t.buf) (texts ms)

Broadcasts-append :
    (s t u : Server) (ms ms' : List Bytes) (ws ws' : List Write)
    → Broadcasts s ms ws t
    → Broadcasts t ms' ws' u
    → Broadcasts s (ms ++ ms') (ws ++ ws') u
Broadcasts-append s t u ms ms' ws ws' b c = record {
  well = c.well;
  conns = c.conns ∙ b.conns;
  connections = c.connections ∙ b.connections;
  codec = c.codec ∙ b.codec;
  holds =
      c.holds
      ∙ ap (λ x. x ++ frames (texts ms')) b.holds
      ∙ append_assoc (contents s.buf) (frames (texts ms)) (frames (texts ms'))
      ∙ ap (λ x. contents s.buf ++ x) (sym (frames-texts_append ms ms'));
  oldest =
      All-append (IsOldest (contents u.buf)) ws ws'
        (subst (λ x. All (IsOldest x) ws) (sym c.holds)
          (IsOldest-append (contents t.buf) (frames (texts ms')) ws b.oldest))
        c.oldest;
  fits = subst (IsFitting (contents u.buf)) (sym (texts-append ms ms')) (
      All-append (λ text. length text + 4 ≤ length (contents u.buf)) (texts ms) (texts ms')
        (subst (λ x. IsFitting x (texts ms)) (sym c.holds)
          (IsFitting-append (contents t.buf) (frames (texts ms')) (texts ms) b.fits))
        c.fits);
  sends =
      ap₂ ◌++◌
        (b.sends
          ∙ sym (broadcasts-grow s.conns (contents t.buf) (frames (texts ms')) (texts ms) b.fits)
          ∙ ap (λ x. broadcasts s.conns x (texts ms)) (sym c.holds))
        (c.sends ∙ ap (λ cs. broadcasts cs (contents u.buf) (texts ms')) b.conns)
      ∙ sym (broadcasts-append s.conns (contents u.buf) (texts ms) (texts ms'))
      ∙ ap (broadcasts s.conns (contents u.buf)) (sym (texts-append ms ms'));
}

send_all-to_all :
    (cs : List ℕ) (mem : Bytes) (len : ℕ) (ws : List Write)
    → send_all cs mem len ≡ ok ws
    → ws ≡ to_all cs (take len mem)
unfolding send_all send to_all
send_all-to_all [] mem len ws e = ground arith
send_all-to_all (c ∷ cs) mem len ws e =
    let (w, sent, e₁) = bind-ok (send c mem len) _ ws e in
    let (others, later, e₂) = bind-ok (send_all cs mem len) _ ws e₁ in
    let (_, inside, e₃) = bind-ok (require (leb len (length mem)) out_of_range) _ w sent in
    let (_, fits, e₄) = bind-ok (require (leb len 8192) out_of_range) _ w e₃ in
    let eq : record { conn = c; bytes = take len mem } ≡ w = ground arith in
    let all : w ∷ others ≡ ws = ground arith in
    sym all ∙ ap₂ ◌∷◌ (sym eq) (send_all-to_all cs mem len others later)

back-Broadcasts :
    (s t : Server) (m : Bytes) (ws : List Write)
    → IsWell s
    → length m ≤ 4096
    → on_string_message_back s m ≡ ok (ws, t)
    → Broadcasts s (m ∷ []) ws t
unfolding on_string_message_back
back-Broadcasts s t m ws w small e =
    let (text, read, e₁) = bind-ok (c_string (m ++ 0 ∷ [])) _ (ws, t) e in
    let (r, encoded, e₂) = bind-ok (encode s.buf text) _ (ws, t) e₁ in
    let (sent, broadcast, e₃) = bind-ok (send_all s.conns (peek r.1) r.0) _ (ws, t) e₂ in
    let framed_text : before_zero m ≡ text =
      ok_injective (sym (c_string-before_zero m []) ∙ read) in
    let shorter : length text ≤ 4096 =
      omega (arith, length-before_zero m, ap (length {A = ℕ}) framed_text) in
    let ((v, holds, same), size) = encode-Appended text r.0 r.1 w.buf_valid shorter encoded in
    let inside : r.0 ≤ length (contents r.1) =
      omega (arith, ap (length {A = ℕ}) holds, length-append (contents s.buf) (framed text)) in
    let eq : record s { buf = r.1 } ≡ t = ground arith in
    let all : sent ≡ ws = ground arith in
    subst (λ t. Broadcasts s (m ∷ []) ws t) eq
      (record {
        well = record { buf_valid = v; unread = same ∙ w.unread; codec_ready = w.codec_ready };
        conns = refl;
        connections = refl;
        codec = refl;
        holds =
            holds
            ∙ ap (λ x. contents s.buf ++ x)
                (ap framed (sym framed_text) ∙ sym (append-nil (framed (before_zero m))));
        oldest =
            subst (All (IsOldest (contents r.1)))
              (sym (
                  send_all-to_all s.conns (peek r.1) r.0 sent broadcast
                  ∙ ap (to_all s.conns) (take-peek r.0 v inside))
                ∙ all)
              (to_all-IsOldest s.conns (contents r.1) r.0 inside (omega arith));
        fits = (omega (arith, size, ap (length {A = ℕ}) framed_text), tt);
        sends =
            sym all
            ∙ send_all-to_all s.conns (peek r.1) r.0 sent broadcast
            ∙ ap (to_all s.conns) (take-peek r.0 v inside)
            ∙ ap (λ k. to_all s.conns (take k (contents r.1)))
                (size ∙ ap (λ x. length x + 4) (sym framed_text))
            ∙ sym (append-nil (to_all s.conns (take (length (before_zero m) + 4) (contents r.1))));
      })

pub deliver-Broadcasts :
    (s t : Server) (ms : List Bytes) (ws : List Write)
    → IsWell s
    → All (λ m. length m ≤ 4096) ms
    → deliver s ms ≡ ok (ws, t)
    → Broadcasts s ms ws t
unfolding deliver
deliver-Broadcasts s t [] ws w small e =
    let none_sent : [] ≡ ws = ground arith in
    let eq : s ≡ t = ground arith in
    subst (λ ws. Broadcasts s [] ws t) none_sent
      (subst (Broadcasts s [] []) eq (record {
        well = w;
        conns = refl;
        connections = refl;
        codec = refl;
        holds = sym (append-nil (contents s.buf));
        oldest = tt;
        fits = tt;
        sends = refl;
      }))
deliver-Broadcasts s t (m ∷ ms) ws w small e =
    let (r, first, e₁) = bind-ok (on_string_message_back s m) _ (ws, t) e in
    let (r', others, e₂) = bind-ok (deliver r.1 ms) _ (ws, t) e₁ in
    let b = back-Broadcasts s r.1 m r.0 w small.0 first in
    let c = deliver-Broadcasts r.1 r'.1 ms r'.0 b.well small.1 others in
    let eq : r'.1 ≡ t = ground arith in
    let all : r.0 ++ r'.0 ≡ ws = ground arith in
    subst (λ ws. Broadcasts s (m ∷ ms) ws t) all
      (subst (Broadcasts s (m ∷ ms) (r.0 ++ r'.0)) eq
        (Broadcasts-append s r.1 r'.1 (m ∷ []) ms r.0 r'.0 b c))
