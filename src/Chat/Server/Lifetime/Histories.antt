-- ===== src/Chat/Server/Lifetime/Histories.antt =====
-- The chat server keeps the rules of its handles (chat/ChatServer.cpp and chat/connection.h).
use learnuv.Base.{
  ℕ, bind-ok, ok_injective, suc, ◌+◌, ◌^◌, ◌<◌, ◌≡◌, refl, sym, ap, ap₂, subst, ◌∙◌, Bool, true,
  false, some, List, [], ◌∷◌, ◌++◌, arith, Bytes, length, ok,
}
use learnuv.Base.Int.{ℤ, pos, negsuc}
use learnuv.Buffer.Inv.{contents}
use learnuv.Uv.{count, eof}
use learnuv.Chat.Server.{
  Write, Server, on_read, on_connection, Event, connects, arrives, ends, breaks, handle, IsSound,
}
use learnuv.Chat.Server.Broadcast.{texts}
use learnuv.Chat.Server.Input.{on_read_error}
use learnuv.Chat.Server.Safety.{IsSafe, on_read-Heard, handle-IsSafe, start-IsSafe}
use learnuv.Chat.Server.Lifetime.{
  Use, opens, delete_found, writings, new_connection, uses, Lived, begins, goes_on, replay,
  no_handles, numbers_below, handles_of,
}
use learnuv.Chat.Server.Lifetime.Rules.{
  replay-cons, replay-append, is_in-above, numbers_below-All, replay-broadcasts, conns-AreOpen,
  replay-delete_found,
}

Replays : Server → List Use → Server → Type 0
Replays s us t = replay (handles_of s) us ≡ some (handles_of t)

on_connection-Replays :
    (s t : Server) (status : ℤ) (got : Bool) (accepted : ℤ)
    → on_connection s status got accepted ≡ ok t
    → Replays s (new_connection s status) t
unfolding Replays on_connection new_connection
on_connection-Replays s t (negsuc n) got accepted e = ap (λ u. some (handles_of u)) (ok_injective e)
on_connection-Replays s t (pos n) false accepted e = absurd (ground arith)
on_connection-Replays s t (pos n) true (negsuc k) e = absurd (ground arith)
on_connection-Replays s t (pos n) true (pos k) e =
    replay-cons (handles_of s)
      (record {
        open_ones = s.conns ++ s.connections ∷ [];
        ever = numbers_below (suc s.connections);
      })
      (opens s.connections) []
      (rw
        (is_in-above s.connections (numbers_below s.connections) (numbers_below-All s.connections))
        refl)
    ∙ ap (λ n. some (record { open_ones = s.conns ++ s.connections ∷ []; ever = numbers_below n }))
        next_id
    ∙ ap (λ u. some (handles_of u)) (ok_injective e)
  where
    next_id : suc s.connections ≡ s.connections + 1
    next_id = omega arith

on_read_eof-Replays :
    (s t : Server) (conn : ℕ) (ws : List Write)
    → IsSafe s
    → on_read s conn eof [] ≡ ok (ws, t)
    → Replays s (delete_found conn s.conns) t
unfolding Replays on_read
on_read_eof-Replays s t conn ws h e =
    replay-delete_found s.conns (numbers_below s.connections) conn h.registered.distinct
    ∙ ap (λ p. some (handles_of p.1)) (ok_injective e)

on_read-Replays :
    (s t : Server) (conn : ℕ) (x : Bytes) (ws : List Write)
    → IsSafe s
    → length x < 2 ^ 32
    → on_read s conn (count (length x)) x ≡ ok (ws, t)
    → Replays s (writings ws) t
unfolding Replays
on_read-Replays s t conn x ws h small e =
    let r = on_read-Heard s t conn x ws h small e in
    ap (λ ws. replay (handles_of s) (writings ws)) r.sends
    ∙ replay-broadcasts (handles_of s) s.conns (contents t.buf) (texts r.messages)
        (conns-AreOpen s.conns s.conns (λ c x. x) (numbers_below s.connections))
    ∙ ap₂ (λ cs n. some (record { open_ones = cs; ever = numbers_below n })) (sym r.conns)
        (sym r.connections)

handle-Replays :
    (s t : Server) (e : Event) (ws : List Write)
    → IsSafe s
    → IsSound e
    → handle s e ≡ ok (ws, t)
    → Replays s (uses s e ws) t
unfolding handle uses
handle-Replays s t (connects status got accepted) ws h sound e =
    let (u, added, last) = bind-ok (on_connection s status got accepted) _ (ws, t) e in
    let eq : u ≡ t = ground arith in
    subst (Replays s (new_connection s status)) eq
      (on_connection-Replays s u status got accepted added)
handle-Replays s t (arrives conn x) ws h sound e = on_read-Replays s t conn x ws h sound e
handle-Replays s t (ends conn) ws h sound e = on_read_eof-Replays s t conn ws h e
handle-Replays s t (breaks conn k base) ws h sound e =
    let (f, stops, _) = on_read_error s conn k base h.well.codec_ready.valid sound.0 sound.1 in
    absurd (ground arith)

Lived-IsSafe : {s : Server} {us : List Use} → Lived s us → IsSafe s
Lived-IsSafe begins = start-IsSafe
Lived-IsSafe (goes_on {s = s} {t = t} e ws l sound returns) =
    handle-IsSafe s t e ws (Lived-IsSafe l) sound returns

-- In every history of events in which no handler stops the process, each handle is opened once,
-- under a number that no other one had, written to only after that, and closed at most once, after
-- which nothing is written to it; and the handles that are open at the end are those of the
-- registered connections.
pub Lived-replay :
    {s : Server} {us : List Use} → Lived s us → replay no_handles us ≡ some (handles_of s)
unfolding Replays
Lived-replay begins = refl
Lived-replay (goes_on {s = s} {t = t} {us = us} e ws l sound returns) =
    replay-append no_handles (handles_of s) us (uses s e ws) (Lived-replay l)
    ∙ handle-Replays s t e ws (Lived-IsSafe l) sound returns
