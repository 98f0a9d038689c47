-- ===== src/Socks/Tunnel/Relay.antt =====
-- What a tunnel passes on between its client and its server.
use learnuv.Base.{
  ◌+◌, ◌%◌, ◌≤◌, ◌<◌, ◌≡◌, ◌≢◌, refl, sym, ap, ◌∙◌, ◌⊎◌, Bool, true, false, List, [], ◌∷◌, ◌++◌,
  append_assoc, arith, Bytes, length, take, overwrite, take-overwrite, ok, length-overwrite, concat,
  All, length-append, Outcome, fail, ◌>>=◌, ℕ, length-take, take_all, take-append, take-take,
  out_of_range,
}
use learnuv.Socks.Tunnel.{
  connecting_to_server, connected_to_server, Tunnel, Effect, to_client, to_server, connect,
  read_server, live, is_request, hold, forward, on_client_read, client_data, received, step, Life,
  Event, run,
}

-- The bytes that the effects send to the server and to the client.
abbrev pub server_bytes : List Effect → Bytes
server_bytes [] = []
server_bytes (to_server ds ∷ es) = ds ++ server_bytes es
server_bytes (_ ∷ es) = server_bytes es

abbrev pub client_bytes : List Effect → Bytes
client_bytes [] = []
client_bytes (to_client ds ∷ es) = ds ++ client_bytes es
client_bytes (_ ∷ es) = client_bytes es

pub server_bytes-append :
    (es es' : List Effect) → server_bytes (es ++ es') ≡ server_bytes es ++ server_bytes es'
server_bytes-append [] es' = refl
server_bytes-append (to_server ds ∷ es) es' =
    ap (λ xs. ds ++ xs) (server_bytes-append es es')
    ∙ sym (append_assoc ds (server_bytes es) (server_bytes es'))
server_bytes-append (to_client ds ∷ es) es' = server_bytes-append es es'
server_bytes-append (connect a ∷ es) es' = server_bytes-append es es'
server_bytes-append (read_server ∷ es) es' = server_bytes-append es es'

-- A chunk that is no request, whatever stands behind it in the buffer
abbrev pub IsPlain : Bytes → Type 0
IsPlain [] = ⊥
IsPlain (a ∷ []) = a % 256 ≢ 4
IsPlain (a ∷ b ∷ ds) = (a % 256 ≢ 4) ⊎ (b % 256 ≢ 1)

-- The chunk fits the client's buffer.
abbrev pub IsChunk : Bytes → Type 0
IsChunk ds = (length ds ≤ 4096) × IsPlain ds

abbrev pub IsSized : Tunnel → Type 0
IsSized t = (length t.client_buf ≡ 4096) × (length t.server_buf ≡ 4096)

plain-is_request :
    (ds mem : Bytes) → length ds ≤ length mem → IsPlain ds → is_request (overwrite 0 ds mem) ≡ false
plain-is_request [] mem h p = absurd p
plain-is_request (a ∷ []) (x ∷ mem) h p = ground (arith, p)
plain-is_request (a ∷ b ∷ ds) (x ∷ y ∷ mem) h p = ground (arith, p)
plain-is_request (a ∷ []) [] h p = absurd (omega arith)
plain-is_request (a ∷ b ∷ ds) [] h p = absurd (omega arith)
plain-is_request (a ∷ b ∷ ds) (x ∷ []) h p = absurd (omega arith)

read_back : (ds mem : Bytes) → length ds ≤ length mem → take (length ds) (overwrite 0 ds mem) ≡ ds
read_back ds mem h = take-overwrite 0 (length ds) ds mem (omega arith) (omega arith)

-- One chunk.
pub step-connected :
    (t : Tunnel) (ds : Bytes)
    → t.status ≡ connected_to_server
    → length t.client_buf ≡ 4096
    → IsChunk ds
    → step t (client_data ds true) ≡ ok (to_server ds ∷ [], live (received t ds))
unfolding step on_client_read forward
step-connected t ds s m (h, p) =
    rw
      (plain-is_request ds t.client_buf (omega arith) p, s, read_back ds t.client_buf (omega arith))
      refl

step-connecting :
    (t : Tunnel) (ds : Bytes) (accepted : Bool)
    → t.status ≡ connecting_to_server
    → IsSized t
    → IsChunk ds
    → t.server_buf_offset + length ds < 4096
    → (t' : Tunnel) × (step t (client_data ds accepted) ≡ ok ([], live t'))
      × (t'.status ≡ connecting_to_server)
      × IsSized t'
      × (t'.server_buf_offset ≡ t.server_buf_offset + length ds)
unfolding step on_client_read forward hold
step-connecting t ds accepted s m (h, p) room = (
  record (received t ds) {
    server_buf = overwrite t.server_buf_offset (ds ++ 0 ∷ []) t.server_buf;
    server_buf_offset = t.server_buf_offset + length ds;
  },
  ground (
    arith,
    m,
    s,
    plain-is_request ds t.client_buf (omega arith) p,
    read_back ds t.client_buf (omega arith),
  ),
  s,
  (
    length-overwrite 0 ds t.client_buf ∙ m.0,
    length-overwrite t.server_buf_offset (ds ++ 0 ∷ []) t.server_buf ∙ m.1,
  ),
  refl,
)

pub run-next :
    (t : Tunnel) (e : Event) (es : List Event) (l l' : Life) (out out' : List Effect)
    → step t e ≡ ok (out, l)
    → run l es ≡ ok (out', l')
    → run (live t) (e ∷ es) ≡ ok (out ++ out', l')
unfolding run
run-next t e es l l' out out' first rest = rw first (rw rest refl)

-- The chunks, which `uv_write` accepts.
abbrev pub chunks : List Bytes → List Event
chunks [] = []
chunks (ds ∷ dss) = client_data ds true ∷ chunks dss

-- Chunks read early, and whatever follows them.
pub run-connecting :
    (t : Tunnel) (dss : List Bytes) (es : List Event) (Then : Outcome (List Effect × Life) → Type 0)
    → t.status ≡ connecting_to_server
    → IsSized t
    → All IsChunk dss
    → t.server_buf_offset + length (concat dss) < 4096
    → ((t' : Tunnel) → IsSized t' → t'.status ≡ connecting_to_server → Then (run (live t') es))
    → Then (run (live t) (chunks dss ++ es))
unfolding run
run-connecting t [] es Then s m h room next = next t m s
run-connecting t (ds ∷ dss) es Then s m h room next =
    let (t₁, e, s₁, m₁, o) =
      step-connecting t ds true s m h.0 (omega (arith, length-append ds (concat dss))) in
    rw (e, drop_nothing (run (live t₁) (chunks dss ++ es)))
      (run-connecting t₁ dss es Then s₁ m₁ h.1 (omega (arith, length-append ds (concat dss), o))
        next)
  where
    drop_nothing : (r : Outcome (List Effect × Life)) → (r >>= (λ r'. ok ([] ++ r'.0, r'.1))) ≡ r
    drop_nothing (ok r) = refl
    drop_nothing (fail why) = refl

-- While the proxy connects, a chunk is kept if it fits behind the offset with a zero byte to spare,
-- and otherwise memory behind the buffer is overwritten; the offset, which is never initialised,
-- decides.
pub early_lem :
    (t : Tunnel) (ds : Bytes) (accepted : Bool)
    → t.status ≡ connecting_to_server
    → IsSized t
    → IsChunk ds
    → (t.server_buf_offset + length ds < 4096
        → (t' : Tunnel) × (step t (client_data ds accepted) ≡ ok ([], live t'))
          × (take (t.server_buf_offset + length ds) t'.server_buf
              ≡ take t.server_buf_offset t.server_buf ++ ds))
      × (4096 ≤ t.server_buf_offset + length ds
          → step t (client_data ds accepted) ≡ fail out_of_range)
unfolding step on_client_read forward hold
early_lem t ds accepted s m (h, p) = (
  λ room. (
    record (received t ds) {
      server_buf = overwrite t.server_buf_offset (ds ++ 0 ∷ []) t.server_buf;
      server_buf_offset = t.server_buf_offset + length ds;
    },
    ground (
      arith,
      m,
      s,
      plain-is_request ds t.client_buf (omega arith) p,
      read_back ds t.client_buf (omega arith),
    ),
    kept t.server_buf_offset t.server_buf ds (omega (arith, m.1)),
  ),
  λ full. ground (arith, m, s, plain-is_request ds t.client_buf (omega arith) p),
)
  where
    kept :
        (i : ℕ) (mem ds : Bytes)
        → i + length ds < length mem
        → take (i + length ds) (overwrite i (ds ++ 0 ∷ []) mem) ≡ take i mem ++ ds
    kept i mem ds room =
        sym (
          take-take (i + length ds) (i + length (ds ++ 0 ∷ [])) (overwrite i (ds ++ 0 ∷ []) mem)
            (omega (arith, length-append ds (0 ∷ []))))
        ∙ ap (take (i + length ds)) (
            take-overwrite i (i + length (ds ++ 0 ∷ [])) (ds ++ 0 ∷ []) mem
              (omega (arith, length-append ds (0 ∷ []))) refl)
        ∙ ap (take (i + length ds)) (sym (append_assoc (take i mem) ds (0 ∷ [])))
        ∙ take-append (i + length ds) (take i mem ++ ds) (0 ∷ [])
            (omega (arith, length-append (take i mem) ds, length-take i mem))
        ∙ take_all (i + length ds) (take i mem ++ ds)
            (omega (arith, length-append (take i mem) ds, length-take i mem))
