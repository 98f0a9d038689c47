-- ===== src/Chat/Server/Safety.antt =====
-- What holds in every state that the chat server can come to.
use learnuv.Base.{
  inl, inr, ◌⊎◌, ℕ, bind-ok, ◌^◌, ◌≤◌, ◌<◌, ◌≡◌, ap, subst, List, [], ◌∷◌, arith, Bytes, length,
  drop, All, length-take, ok, refl, ◌∙◌, ◌++◌, ◌+◌, sym, true, false, append-nil, ok_injective,
  Bool,
}
use learnuv.Base.Word.{be32_value}
use learnuv.Base.Int.{pos, negsuc, ℤ}
use learnuv.Buffer.Inv.{IsValid, new-IsValid, contents}
use learnuv.Codec.{on_uv_read}
use learnuv.Codec.Stream.{Decodes, pending, frame, frames}
use learnuv.Codec.Feed.{IsReady, on_uv_read_lem, on_uv_read-IsAppendable}
use learnuv.Codec.RoundTrip.{new_codec-IsReady}
use learnuv.Uv.{count, eof}
use learnuv.Chat.Server.{
  erase, Write, Server, on_read, on_connection, read_bytes, Event, connects, arrives, ends, breaks,
  handle, IsSound, Reached, started, next, start,
}
use learnuv.Chat.Server.Broadcast.{IsWell, texts}
use learnuv.Chat.Server.Input.{
  on_read_error, IsDistinct, IsRegistered, on_connection_lem, on_read_eof,
}
use learnuv.Chat.Server.History.{broadcasts}
use learnuv.Chat.Server.Growth.{IsFitting}
use learnuv.Chat.Server.Sent.{IsOldest, deliver-Broadcasts}

pub Decodes-small :
    {s rest : Bytes} {ms : List Bytes} → Decodes s ms rest → All (λ m. length m ≤ 4096) ms
Decodes-small (pending p) = tt
Decodes-small (frame {s = s} f d) =
    (omega (arith, f.short, length-take (be32_value s) (drop 4 s)), Decodes-small d)

-- What every event keeps: valid buffers, of which nothing was read from the one for broadcasts, and
-- distinct connections below the next id.
pub record IsSafe (s : Server) : Type 0 where
  pub well : IsWell s
  pub registered : IsRegistered s

-- What a read of `x` does, where it returns.
pub record Heard (s : Server) (x : Bytes) (ws : List Write) (t : Server) : Type 0 where
  pub messages : List Bytes
  pub reads : Decodes (contents s.codec.buffer ++ x) messages (contents t.codec.buffer)
  pub safe : IsSafe t
  pub conns : t.conns ≡ s.conns
  pub connections : t.connections ≡ s.connections
  pub holds : contents t.buf ≡ contents s.buf ++ frames (texts messages)
  pub oldest : All (IsOldest (contents t.buf)) ws
  pub fits : IsFitting (contents t.buf) (texts messages)
  pub sends : ws ≡ broadcasts s.conns (contents t.buf) (texts messages)

IsRegistered-same :
    (s t : Server)
    → t.conns ≡ s.conns
    → t.connections ≡ s.connections
    → IsRegistered s
    → IsRegistered t
IsRegistered-same s t conns connections r = record {
  distinct = subst IsDistinct (sym conns) r.distinct;
  older =
      subst (λ n. All (λ c. c < n) t.conns) (sym connections)
        (subst (All (λ c. c < s.connections)) (sym conns) r.older);
}

pub on_read-Heard :
    (s t : Server) (conn : ℕ) (x : Bytes) (ws : List Write)
    → IsSafe s
    → length x < 2 ^ 32
    → on_read s conn (count (length x)) x ≡ ok (ws, t)
    → Heard s x ws t
unfolding on_read read_bytes
on_read-Heard s t conn [] ws h small e =
    let none_sent : [] ≡ ws = ground arith in
    let eq : s ≡ t = ground arith in
    subst (λ ws. Heard s [] ws t) none_sent
      (subst (Heard s [] []) eq (record {
        messages = [];
        reads =
            subst (λ x. Decodes x [] (contents s.codec.buffer))
              (sym (append-nil (contents s.codec.buffer))) (pending h.well.codec_ready.idle);
        safe = h;
        conns = refl;
        connections = refl;
        holds = sym (append-nil (contents s.buf));
        oldest = tt;
        fits = tt;
        sends = refl;
      }))
on_read-Heard s t conn (b ∷ x) ws h small e =
    let (r, read, e₁) = bind-ok (on_uv_read s.codec (length (b ∷ x)) (b ∷ x)) _ (ws, t) e in
    let d =
      on_uv_read_lem s.codec (b ∷ x) h.well.codec_ready
        (on_uv_read-IsAppendable s.codec (b ∷ x) r h.well.codec_ready (omega arith) read) in
    let same : ok (d.messages, d.after) ≡ ok r = sym d.returns ∙ read in
    let messages : d.messages ≡ r.0 = ground arith in
    let after : d.after ≡ r.1 = ground arith in
    let k =
      deliver-Broadcasts (record s { codec = r.1 }) t r.0 ws
        (record {
          buf_valid = h.well.buf_valid;
          unread = h.well.unread;
          codec_ready = subst IsReady after d.ready;
        })
        (subst (All (λ m. length m ≤ 4096)) messages (Decodes-small d.reads)) e₁ in
    record {
      messages = r.0;
      reads =
          subst (λ c. Decodes (contents s.codec.buffer ++ (b ∷ x)) r.0 (contents c.buffer))
            (after ∙ sym k.codec)
            (subst (λ ms. Decodes (contents s.codec.buffer ++ (b ∷ x)) ms (contents d.after.buffer))
              messages d.reads);
      safe = record {
        well = k.well;
        registered = IsRegistered-same s t k.conns k.connections h.registered;
      };
      conns = k.conns;
      connections = k.connections;
      holds = k.holds;
      oldest = k.oldest;
      fits = k.fits;
      sends = k.sends;
    }

IsWell-same : (s t : Server) → t.buf ≡ s.buf → t.codec ≡ s.codec → IsWell s → IsWell t
IsWell-same s t buf codec w = record {
  buf_valid = subst IsValid (sym buf) w.buf_valid;
  unread = ap (λ b. b.reader_index) buf ∙ w.unread;
  codec_ready = subst IsReady (sym codec) w.codec_ready;
}

-- A step that touches neither buffer.
abbrev pub SafeAround : Server → Server → Type 0
SafeAround s t = IsSafe t × (t.codec ≡ s.codec) × (t.buf ≡ s.buf)

pub on_connection-SafeAround :
    (s t : Server) (status : ℤ) (got : Bool) (accepted : ℤ)
    → IsSafe s
    → on_connection s status got accepted ≡ ok t
    → SafeAround s t
unfolding on_connection
on_connection-SafeAround s t (negsuc n) got accepted h e =
    subst (SafeAround s) (ok_injective e) (h, refl, refl)
on_connection-SafeAround s t (pos n) false accepted h e = absurd (ground arith)
on_connection-SafeAround s t (pos n) true (negsuc k) h e = absurd (ground arith)
on_connection-SafeAround s t (pos n) true (pos k) h e =
    let (u, added, _, _, r) = (on_connection_lem s n k h.registered).1 in
    let s' = record s { conns = s.conns ++ s.connections ∷ []; connections = s.connections + 1 } in
    let eq : u ≡ s' = ground arith in
    subst (SafeAround s) (ok_injective e) (
      record { well = IsWell-same s s' refl refl h.well; registered = subst IsRegistered eq r },
      refl,
      refl,
    )

pub on_read_eof-SafeAround :
    (s t : Server) (conn : ℕ) (ws : List Write)
    → IsSafe s
    → on_read s conn eof [] ≡ ok (ws, t)
    → SafeAround s t
on_read_eof-SafeAround s t conn ws h e =
    let (u, ended, _, r, codec, buf) = on_read_eof s conn [] h.registered in
    subst (SafeAround s) (ap (λ p. p.1) (ok_injective (sym ended ∙ e)))
      (record { well = IsWell-same s u buf codec h.well; registered = r }, codec, buf)

pub on_connection-conns :
    (s t : Server) (status : ℤ) (got : Bool) (accepted : ℤ)
    → on_connection s status got accepted ≡ ok t
    → (((e : ℕ) × (status ≡ negsuc e)) × (t.conns ≡ s.conns))
      ⊎ (((n : ℕ) × (status ≡ pos n)) × (t.conns ≡ s.conns ++ s.connections ∷ []))
unfolding on_connection
on_connection-conns s t (negsuc n) got accepted e =
    inl ((n, refl), ap (λ u. u.conns) (sym (ok_injective e)))
on_connection-conns s t (pos n) false accepted e = absurd (ground arith)
on_connection-conns s t (pos n) true (negsuc k) e = absurd (ground arith)
on_connection-conns s t (pos n) true (pos k) e =
    inr ((n, refl), ap (λ u. u.conns) (sym (ok_injective e)))

pub on_read_eof-erase :
    (s t : Server) (i : ℕ) (ws : List Write)
    → on_read s i eof [] ≡ ok (ws, t)
    → erase i s.conns ≡ t.conns
unfolding on_read
on_read_eof-erase s t i ws e = ap (λ p. p.1.conns) (ok_injective e)

pub handle-IsSafe :
    (s t : Server) (e : Event) (ws : List Write)
    → IsSafe s
    → IsSound e
    → handle s e ≡ ok (ws, t)
    → IsSafe t
unfolding handle
handle-IsSafe s t (connects status got accepted) ws h sound e =
    let (u, added, last) = bind-ok (on_connection s status got accepted) _ (ws, t) e in
    let eq : u ≡ t = ground arith in
    subst IsSafe eq (on_connection-SafeAround s u status got accepted h added).0
handle-IsSafe s t (arrives conn x) ws h sound e = (on_read-Heard s t conn x ws h sound e).safe
handle-IsSafe s t (ends conn) ws h sound e = (on_read_eof-SafeAround s t conn ws h e).0
handle-IsSafe s t (breaks conn k base) ws h sound e =
    let (f, stops, _) = on_read_error s conn k base h.well.codec_ready.valid sound.0 sound.1 in
    absurd (ground arith)

pub start-IsSafe : IsSafe start
start-IsSafe = record {
  well = record {
    buf_valid = new-IsValid 1024 (omega arith);
    unread = refl;
    codec_ready = new_codec-IsReady;
  };
  registered = record { distinct = tt; older = tt };
}

-- In every state that the server comes to from its start, by whatever events, in any order, and
-- as long as no handler stops the process, the buffers are valid, nothing was read from the one for
-- broadcasts, the codec has read all that can be read, and the registered connections are distinct
-- and older than the next id.
pub Reached-IsSafe : {s : Server} → Reached s → IsSafe s
Reached-IsSafe started = start-IsSafe
Reached-IsSafe (next {s = s} {t = t} e ws r sound returns) =
    handle-IsSafe s t e ws (Reached-IsSafe r) sound returns
