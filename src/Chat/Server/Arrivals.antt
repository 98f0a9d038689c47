-- ===== src/Chat/Server/Arrivals.antt =====
-- Reads from several connections, in the order in which the loop reports them.
use mathlib.Core.Path.{fun_ext}
use learnuv.Base.{
  ℕ, ◌+◌, ◌<◌, ◌≡◌, refl, List, [], ◌∷◌, ◌++◌, Bytes, length, Outcome, ok, fail, ◌>>=◌, ◌≤◌, sym,
  ap, ◌∙◌, append_assoc, arith, concat, All, subst, bind-ok,
}
use learnuv.Buffer.{Buffer, peek}
use learnuv.Buffer.Inv.{contents}
use learnuv.Codec.{Codec, encode, on_uv_read}
use learnuv.Codec.Stream.{Decodes}
use learnuv.Codec.Feed.{feed, IsReady, feed_lem, feed-Split, feed-none}
use learnuv.Uv.{count, c_string}
use learnuv.Chat.Server.{
  Write, Server, send_all, on_string_message_back, deliver, on_read, read_bytes,
}

-- The connection that is read, and the bytes.
abbrev pub Arrival : Type 0
Arrival = ℕ × Bytes

pub on_reads : Server → List Arrival → Outcome (List Write × Server)
on_reads s [] = ok ([], s)
on_reads s ((conn, x) ∷ xs) = do
  r ← on_read s conn (count (length x)) x
  r' ← on_reads r.1 xs
  ok (r.0 ++ r'.0, r'.1)

abbrev pub pieces : List Arrival → List Bytes
pieces [] = []
pieces ((conn, x) ∷ xs) = x ∷ pieces xs

-- A count of 0 is no data.
abbrev pub IsData : Arrival → Type 0
IsData (conn, x) = 0 < length x

-- The same result with another codec in the server.
abbrev with_codec : Codec → Outcome (List Write × Server) → Outcome (List Write × Server)
with_codec c (ok (ws, s)) = ok (ws, record s { codec = c })
with_codec c (fail why) = fail why

-- Broadcasts neither read nor change the codec.
back-with_codec :
    (c : Codec) (s : Server) (m : Bytes)
    → on_string_message_back (record s { codec = c }) m ≡ with_codec c (on_string_message_back s m)
unfolding on_string_message_back
back-with_codec c s m = texts (c_string (m ++ 0 ∷ []))
  where
    sent :
        (b : Buffer) (o : Outcome (List Write))
        → (o >>= (λ ws. ok (ws, record s { codec = c; buf = b })))
          ≡ with_codec c (o >>= (λ ws. ok (ws, record s { buf = b })))
    sent b (ok ws) = refl
    sent b (fail why) = refl

    encoded :
        (o : Outcome (ℕ × Buffer))
        → (o >>= (λ r.
            send_all s.conns (peek r.1) r.0 >>= (λ ws. ok (ws, record s { codec = c; buf = r.1 }))))
          ≡ with_codec c (
              o >>= (λ r.
                send_all s.conns (peek r.1) r.0 >>= (λ ws. ok (ws, record s { buf = r.1 }))))
    encoded (ok r) = sent r.1 (send_all s.conns (peek r.1) r.0)
    encoded (fail why) = refl

    texts :
        (o : Outcome Bytes)
        → (o >>= (λ text. encode s.buf text >>= (λ r.
            send_all s.conns (peek r.1) r.0
            >>= (λ ws. ok (ws, record s { codec = c; buf = r.1 })))))
          ≡ with_codec c (
              o >>= (λ text. encode s.buf text >>= (λ r.
                send_all s.conns (peek r.1) r.0 >>= (λ ws. ok (ws, record s { buf = r.1 })))))
    texts (ok text) = encoded (encode s.buf text)
    texts (fail why) = refl

-- What is done later is put behind; `chain o f` runs `f` on the server that `o` leaves.
abbrev put_front : List Write → List Write × Server → Outcome (List Write × Server)
put_front ws r = ok (ws ++ r.0, r.1)

abbrev chain :
    Outcome (List Write × Server)
    → (Server → Outcome (List Write × Server))
    → Outcome (List Write × Server)
chain o f = o >>= (λ r. f r.1 >>= put_front r.0)

chain-none : (o : Outcome (List Write × Server)) → (o >>= put_front []) ≡ o
chain-none (ok r) = refl
chain-none (fail why) = refl

chain_assoc :
    (o : Outcome (List Write × Server)) (f g : Server → Outcome (List Write × Server))
    → chain (chain o f) g ≡ chain o (λ s. chain (f s) g)
chain_assoc (fail why) f g = refl
chain_assoc (ok (ws, s)) f g = inner (f s)
  where
    last :
        (ws' : List Write) (o : Outcome (List Write × Server))
        → (o >>= put_front (ws ++ ws')) ≡ ((o >>= put_front ws') >>= put_front ws)
    last ws' (ok r) = ap (λ xs. ok (xs, r.1)) (append_assoc ws ws' r.0)
    last ws' (fail why) = refl

    inner :
        (o : Outcome (List Write × Server))
        → chain (o >>= put_front ws) g ≡ (chain o g >>= put_front ws)
    inner (ok r) = last r.0 (g r.1)
    inner (fail why) = refl

-- Two ways to go on that do the same, each with its codec, do the same behind.
chain-swap_codec :
    (c c' : Codec) (o : Outcome (List Write × Server))
    (f g : Server → Outcome (List Write × Server))
    → ((s : Server) → f (record s { codec = c }) ≡ g (record s { codec = c' }))
    → chain (with_codec c o) f ≡ chain (with_codec c' o) g
chain-swap_codec c c' (fail why) f g h = refl
chain-swap_codec c c' (ok (ws, s)) f g h = ap (λ o. o >>= put_front ws) (h s)

chain-with_codec :
    (c : Codec) (o : Outcome (List Write × Server)) (f : Server → Outcome (List Write × Server))
    → ((s : Server) → f (record s { codec = c }) ≡ with_codec c (f s))
    → chain (with_codec c o) f ≡ with_codec c (chain o f)
chain-with_codec c (fail why) f h = refl
chain-with_codec c (ok (ws, s)) f h = ap (λ o. o >>= put_front ws) (h s) ∙ behind (f s)
  where
    behind :
        (o : Outcome (List Write × Server))
        → (with_codec c o >>= put_front ws) ≡ with_codec c (o >>= put_front ws)
    behind (ok r) = refl
    behind (fail why) = refl

deliver-with_codec :
    (c : Codec) (s : Server) (ms : List Bytes)
    → deliver (record s { codec = c }) ms ≡ with_codec c (deliver s ms)
unfolding deliver
deliver-with_codec c s [] = refl
deliver-with_codec c s (m ∷ ms) =
    ap (λ o. chain o (λ t. deliver t ms)) (back-with_codec c s m)
    ∙ chain-with_codec c (on_string_message_back s m) (λ t. deliver t ms)
        (λ t. deliver-with_codec c t ms)

deliver-none : (s : Server) → deliver s [] ≡ ok ([], s)
unfolding deliver
deliver-none s = refl

deliver-append :
    (s : Server) (ms ms' : List Bytes)
    → deliver s (ms ++ ms') ≡ chain (deliver s ms) (λ t. deliver t ms')
unfolding deliver
deliver-append s [] ms' = sym (chain-none (deliver s ms'))
deliver-append s (m ∷ ms) ms' =
    ap (chain (on_string_message_back s m)) (fun_ext (λ t. deliver-append t ms ms'))
    ∙ sym (chain_assoc (on_string_message_back s m) (λ t. deliver t ms) (λ t. deliver t ms'))

pub on_read-none : (s : Server) (conn : ℕ) → on_read s conn (count 0) [] ≡ ok ([], s)
unfolding on_read
on_read-none s conn = refl

-- A read with data.
pub on_read-deliver :
    (s : Server) (conn : ℕ) (x : Bytes) (ms : List Bytes) (c : Codec)
    → 0 < length x
    → on_uv_read s.codec (length x) x ≡ ok (ms, c)
    → on_read s conn (count (length x)) x ≡ deliver (record s { codec = c }) ms
unfolding on_read read_bytes
on_read-deliver s conn [] ms c h e = absurd (omega arith)
on_read-deliver s conn (b ∷ x) ms c h e = rw e refl

pub on_reads-deliver :
    (s : Server) (xs : List Arrival) (ms : List Bytes) (c : Codec)
    → feed s.codec (pieces xs) ≡ ok (ms, c)
    → All IsData xs
    → on_reads s xs ≡ deliver (record s { codec = c }) ms
unfolding on_reads
on_reads-deliver s [] ms c e h =
    let (none_read, same) = feed-none s.codec ms c e in
    subst (λ ms. ok ([], s) ≡ deliver (record s { codec = c }) ms) (sym none_read)
      (ap (λ c. ok ([], record s { codec = c })) same ∙ sym (deliver-none (record s { codec = c })))
on_reads-deliver s ((conn, x) ∷ xs) ms c e (some_data, h) =
    let p = feed-Split s.codec x (pieces xs) ms c e in
    ap (λ o. chain o (λ t. on_reads t xs))
      (on_read-deliver s conn x p.first p.between some_data p.reads_first
        ∙ deliver-with_codec p.between s p.first)
    ∙ chain-swap_codec p.between c (deliver s p.first) (λ t. on_reads t xs)
        (λ t. deliver t p.others)
        (λ t. on_reads-deliver (record t { codec = p.between }) xs p.others c p.reads_others h)
    ∙ ap (λ o. chain o (λ t. deliver t p.others)) (sym (deliver-with_codec c s p.first))
    ∙ sym (deliver-append (record s { codec = c }) p.first p.others)
    ∙ ap (deliver (record s { codec = c })) (sym p.joined)

-- Which connections the bytes come from makes no difference: the server reads all of them as one
-- stream. Any reads with data of any connections, in the order of the loop, which together fit
-- behind the write index of the codec's buffer, do what broadcasting the messages does that one
-- codec makes of their bytes joined together.
pub on_reads-feed :
    (s : Server) (xs : List Arrival)
    → IsReady s.codec
    → s.codec.buffer.writer_index + length (concat (pieces xs)) ≤ length s.codec.buffer.buffer
    → All IsData xs
    → (ms : List Bytes) × (c : Codec) × (feed s.codec (pieces xs) ≡ ok (ms, c))
      × Decodes (contents s.codec.buffer ++ concat (pieces xs)) ms (contents c.buffer)
      × (on_reads s xs ≡ deliver (record s { codec = c }) ms)
on_reads-feed s xs w room h =
    let f = feed_lem s.codec (pieces xs) w room in
    (f.messages, f.after, f.returns, f.reads, on_reads-deliver s xs f.messages f.after f.returns h)

pub on_reads-first :
    (s : Server) (conn : ℕ) (x : Bytes) (xs : List Arrival) (r : List Write × Server)
    → on_reads s ((conn, x) ∷ xs) ≡ ok r
    → (r' : List Write × Server) × (on_read s conn (count (length x)) x ≡ ok r')
unfolding on_reads
on_reads-first s conn x xs r e =
    let (r', read, _) = bind-ok (on_read s conn (count (length x)) x) _ r e in (r', read)
