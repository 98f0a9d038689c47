-- ===== src/Chat/Client/Typed.antt =====
-- What the chat client wrote for what was typed, where it returned.
use learnuv.Base.{
  ℕ, bind-ok, ◌≤◌, ◌≡◌, refl, sym, ap, subst, ◌∙◌, List, [], ◌∷◌, ◌++◌, append-nil, arith, Bytes,
  length, take, All, length-append, ok, ◌>>=◌, Outcome,
}
use learnuv.Buffer.{peek}
use learnuv.Buffer.Inv.{contents}
use learnuv.Buffer.Retrieve.{take-peek}
use learnuv.Codec.{encode}
use learnuv.Codec.Stream.{framed}
use learnuv.Codec.RoundTrip.{encode-Appended, encode-length}
use learnuv.Uv.{Nread, count, eof, error, c_string}
use learnuv.Chat.Wire.Fronts.{IsFront}
use learnuv.Chat.Client.{Sent, Client, send_raw_content, on_read_stdin}
use learnuv.Chat.Client.Input.{IsWell}
use learnuv.Chat.Client.Pieces.{sent_bytes}

-- The writes are beginnings of the buffer of frames, which only grows, and fit into `sendBuf`.
pub record Typed (c : Client) (ss : List Sent) (c' : Client) : Type 0 where
  pub well : IsWell c'
  pub codec : c'.codec ≡ c.codec
  pub more : Bytes
  pub holds : contents c'.buffer ≡ contents c.buffer ++ more
  pub fronts : All (IsFront (contents c'.buffer) 1024) (sent_bytes ss)

send_raw_content-ok :
    (mem : Bytes) (len done : ℕ) (s : Sent)
    → send_raw_content mem len done ≡ ok s
    → (len ≤ 1024) × (s.bytes ≡ take len mem)
unfolding send_raw_content
send_raw_content-ok mem len done s e = ground arith

-- The frame of a text and its write
abbrev frame_and_send : Client → Bytes → Outcome (List Sent × Client)
frame_and_send c text = do
  r ← encode c.buffer text
  s ← send_raw_content (peek r.1) r.0 1
  ok (s ∷ [], record c { buffer = r.1 })

frame-Typed :
    (c c' : Client) (text : Bytes) (ss : List Sent)
    → IsWell c
    → frame_and_send c text ≡ ok (ss, c')
    → Typed c ss c'
frame-Typed c c' text ss w e =
    let (r, encoded, e₁) = bind-ok (encode c.buffer text) _ (ss, c') e in
    let (s, sent, e₂) = bind-ok (send_raw_content (peek r.1) r.0 1) _ (ss, c') e₁ in
    let (fits, bytes) = send_raw_content-ok (peek r.1) r.0 1 s sent in
    let short : length text ≤ 4096 = omega (arith, encode-length c.buffer text r.0 r.1 encoded) in
    let ((v, holds, same), size) = encode-Appended text r.0 r.1 w.valid short encoded in
    let inside : r.0 ≤ length (contents r.1) =
      omega (arith, ap (length {A = ℕ}) holds, length-append (contents c.buffer) (framed text)) in
    let eq : record c { buffer = r.1 } ≡ c' = ground arith in
    let all : s ∷ [] ≡ ss = ground arith in
    subst (λ ss. Typed c ss c') all
      (subst (Typed c (s ∷ [])) eq (record {
        well = record { valid = v; unread = same ∙ w.unread };
        codec = refl;
        more = framed text;
        holds = holds;
        fronts = ((r.0, inside, fits, bytes ∙ take-peek r.0 v inside), tt);
      }))

pub on_read_stdin-Typed :
    (c c' : Client) (nread : Nread) (base : Bytes) (ss : List Sent)
    → IsWell c
    → on_read_stdin c nread base ≡ ok (ss, c')
    → Typed c ss c'
unfolding on_read_stdin
on_read_stdin-Typed c c' eof base ss w e =
    let none_sent : [] ≡ ss = ground arith in
    let eq : c ≡ c' = ground arith in
    subst (λ ss. Typed c ss c') none_sent
      (subst (Typed c []) eq (record {
        well = w;
        codec = refl;
        more = [];
        holds = sym (append-nil (contents c.buffer));
        fronts = tt;
      }))
on_read_stdin-Typed c c' (count n) base ss w e =
    let (text, _, e₁) = bind-ok (c_string base) _ (ss, c') e in frame-Typed c c' text ss w e₁
on_read_stdin-Typed c c' (error k) base ss w e =
    let (text, _, e₁) = bind-ok (c_string base) _ (ss, c') e in frame-Typed c c' text ss w e₁
