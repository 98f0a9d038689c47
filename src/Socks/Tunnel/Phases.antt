-- ===== src/Socks/Tunnel/Phases.antt =====
-- When a tunnel sends to the server.
use learnuv.Base.{
  ℕ, ◌+◌, ◌≡◌, refl, ap, ap₂, ◌∙◌, inl, inr, Bool, true, false, List, [], ◌∷◌, ◌++◌, arith, Bytes,
  length, drop, overwrite, All, ltb, if◌then◌else◌, Bool-cases, Outcome, ok, fail, ◌>>=◌,
}
use learnuv.Base.Int.{pos, negsuc}
use learnuv.Uv.{Nread, count, eof, error, c_string}
use learnuv.Socks.Address.{addr_of, parse_addr-addr_of}
use learnuv.Socks.Tunnel.{
  Status, tunnel_start, success, close_client, bad_request, server_write_end, client_write_end,
  connecting_to_server, connected_to_server, Tunnel, Effect, to_client, connect, Life, live, freed,
  is_request, granted, open_server, hold, forward, on_client_read, on_server_connect,
  on_server_read, on_server_write_end, Event, client_data, client_eof, client_error, connected,
  server_data, written_to_client, received, still_live, step, run,
}
use learnuv.Socks.Tunnel.Relay.{server_bytes, server_bytes-append}

abbrev pub is_connected : Status → Bool
is_connected connected_to_server = true
is_connected _ = false

-- Not the news that the server has answered.
abbrev pub IsQuiet : Event → Type 0
IsQuiet (connected (pos n)) = ⊥
IsQuiet _ = Unit {0}

-- An outcome, if there is one, sends nothing to the server and leaves the tunnel unconnected.
abbrev pub IsSilent : Outcome (List Effect × Life) → Type 0
IsSilent (fail why) = Unit {0}
IsSilent (ok (out, freed)) = server_bytes out ≡ []
IsSilent (ok (out, live t)) = (server_bytes out ≡ []) × (is_connected t.status ≡ false)

open_server-IsSilent : (t : Tunnel) → IsSilent (open_server t >>= still_live)
unfolding open_server
open_server-IsSilent t =
    rw (parse_addr-addr_of t.client_buf 2) (named (c_string (drop 8 t.client_buf)))
  where
    named :
        (user : Outcome Bytes)
        → IsSilent (
            (user >>= (λ u. ok (
              to_client granted ∷ connect (addr_of t.client_buf 2) ∷ [],
              record t { addr = addr_of t.client_buf 2; status = connecting_to_server },
            )))
            >>= still_live)
    named (ok u) = (refl, refl)
    named (fail why) = tt

hold-IsSilent :
    (t : Tunnel) (n : ℕ) → is_connected t.status ≡ false → IsSilent (hold t n >>= still_live)
unfolding hold
hold-IsSilent t n h = elim (Bool-cases (ltb (t.server_buf_offset + n) (length t.server_buf))) [
  | inl room ↦ rw room (refl, h)
  | inr full ↦ rw full tt
]

forward-IsSilent :
    (t : Tunnel) (s : Status) (n : ℕ) (accepted : Bool)
    → t.status ≡ s
    → is_connected s ≡ false
    → IsSilent (forward t s n accepted >>= still_live)
unfolding forward
forward-IsSilent t connected_to_server n accepted e h = absurd (ground arith)
forward-IsSilent t connecting_to_server n accepted e h = hold-IsSilent t n (ap is_connected e ∙ h)
forward-IsSilent t tunnel_start n accepted e h = (refl, ap is_connected e)
forward-IsSilent t success n accepted e h = (refl, ap is_connected e)
forward-IsSilent t close_client n accepted e h = (refl, ap is_connected e)
forward-IsSilent t bad_request n accepted e h = (refl, ap is_connected e)
forward-IsSilent t server_write_end n accepted e h = (refl, ap is_connected e)
forward-IsSilent t client_write_end n accepted e h = (refl, ap is_connected e)

on_server_read-IsSilent :
    (t : Tunnel) (nread : Nread) (base : Bytes)
    → is_connected t.status ≡ false
    → IsSilent (on_server_read t nread base >>= still_live)
unfolding on_server_read
on_server_read-IsSilent t eof base h = (refl, h)
on_server_read-IsSilent t (error k) base h = (refl, h)
on_server_read-IsSilent t (count n) base h = printed (if ltb n 50 then c_string base else ok [])
  where
    printed :
        (text : Outcome Bytes)
        → IsSilent ((text >>= (λ u. ok (to_client base ∷ [], t))) >>= still_live)
    printed (ok u) = (refl, h)
    printed (fail why) = tt

write_end-IsSilent :
    (t : Tunnel)
    → is_connected t.status ≡ false
    → is_connected (on_server_write_end t).status ≡ false
unfolding on_server_write_end
write_end-IsSilent t h = ground arith

step-IsSilent :
    (t : Tunnel) (e : Event) → is_connected t.status ≡ false → IsQuiet e → IsSilent (step t e)
unfolding step on_client_read on_server_connect
step-IsSilent t (client_data ds accepted) h q =
    elim (Bool-cases (is_request (overwrite 0 ds t.client_buf))) [
      | inl asks ↦ rw asks (open_server-IsSilent (received t ds))
      | inr plain ↦ rw plain (forward-IsSilent (received t ds) t.status (length ds) accepted refl h)
    ]
step-IsSilent t client_eof h q = (refl, h)
step-IsSilent t (client_error k) h q = (refl, h)
step-IsSilent t (connected (pos n)) h q = absurd q
step-IsSilent t (connected (negsuc n)) h q = refl
step-IsSilent t (server_data nread base) h q = on_server_read-IsSilent t nread base h
step-IsSilent t written_to_client h q = (refl, write_end-IsSilent t h)

run_freed : (es : List Event) → IsSilent (run freed es)
unfolding run
run_freed [] = refl
run_freed (e ∷ es) = tt

-- Until a server has answered, nothing that a client, the server's stream or a write's end does
-- makes a tunnel send a byte to the server, whatever its buffers hold.
pub run-IsSilent :
    (t : Tunnel) (es : List Event)
    → is_connected t.status ≡ false
    → All IsQuiet es
    → IsSilent (run (live t) es)
unfolding run
run-IsSilent t [] h q = (refl, h)
run-IsSilent t (e ∷ es) h q =
    next (step t e) (step-IsSilent t e h q.0) (λ t' h'. run-IsSilent t' es h' q.1)
  where
    joined :
        (out : List Effect)
        → server_bytes out ≡ []
        → (r : Outcome (List Effect × Life)) → IsSilent r
        → IsSilent (r >>= (λ r'. ok (out ++ r'.0, r'.1)))
    joined out none_sent (fail why) i = tt
    joined out none_sent (ok (out', freed)) i = server_bytes-append out out' ∙ ap₂ ◌++◌ none_sent i
    joined out none_sent (ok (out', live t')) i =
        (server_bytes-append out out' ∙ ap₂ ◌++◌ none_sent i.0, i.1)

    next :
        (r : Outcome (List Effect × Life))
        → IsSilent r
        → ((t' : Tunnel) → is_connected t'.status ≡ false → IsSilent (run (live t') es))
        → IsSilent (r >>= (λ r. run r.1 es >>= (λ r'. ok (r.0 ++ r'.0, r'.1))))
    next (fail why) i more = tt
    next (ok (out, freed)) i more = joined out i (run freed es) (run_freed es)
    next (ok (out, live t')) i more = joined out i.0 (run (live t') es) (more t' i.1)
