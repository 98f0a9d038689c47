-- ===== src/Transfer/Shared.antt =====
-- Several connections, whose reads go into one global `buffer`. A read runs on another thread: its
-- bytes are in the buffer at some moment, and the loop calls `on_read` at some later one.
use learnuv.Base.{
  append-nil, ℕ, zero, suc, ◌≤◌, ◌<◌, ◌≡◌, refl, sym, ap, ◌∙◌, List, [], ◌∷◌, ◌++◌, arith, Bytes,
  length, take, overwrite, length-overwrite, take-overwrite, take-take, assertion, Outcome, ok,
  fail, ◌>>=◌,
}
use learnuv.Base.Int.{ℤ, pos}
use learnuv.Transfer.{writing, Transfer, on_read}

-- The buffer, and the connections; their own `buffer` field is not used.
pub record Shared : Type 0 where
  pub buffer : Bytes
  pub connections : List Transfer

-- `landed`: the bytes of a read are put into the buffer. `called`: the callback of connection `i`
-- runs with the read's result.
pub data Moment : Type 0 where
  landed : Bytes → Moment
  called : ℕ → ℤ → Moment

-- The connection calls back with what the buffer holds now.
pub call_back : Bytes → List Transfer → ℕ → ℤ → Outcome (List Transfer)
unfolding on_read
call_back buffer [] i result = fail assertion
call_back buffer (t ∷ ts) zero result = do
  t' ← on_read (record t { buffer = buffer }) result
  ok (t' ∷ ts)
call_back buffer (t ∷ ts) (suc i) result = do ts' ← call_back buffer ts i result; ok (t ∷ ts')

pub moments : Shared → List Moment → Outcome Shared
unfolding call_back
moments s [] = ok s
moments s (landed bytes ∷ ms) = moments (record s { buffer = overwrite 0 bytes s.buffer }) ms
moments s (called i result ∷ ms) = do
  ts ← call_back s.buffer s.connections i result
  moments (record s { connections = ts }) ms

-- What connection `i` has sent.
abbrev pub sent_by : List Transfer → ℕ → Bytes
sent_by [] i = []
sent_by (t ∷ ts) zero = t.sent
sent_by (t ∷ ts) (suc i) = sent_by ts i

-- The callback sends what it finds.
call_back_lem :
    (buffer : Bytes) (ts : List Transfer) (i n : ℕ)
    → i < length ts
    → 0 < n
    → n < 8192
    → (ts' : List Transfer) × (call_back buffer ts i (pos n) ≡ ok ts')
      × (length ts' ≡ length ts)
      × (sent_by ts' i ≡ sent_by ts i ++ (take n buffer ++ 0 ∷ []))
unfolding call_back on_read
call_back_lem buffer [] i n lt some_data part = absurd (omega arith)
call_back_lem buffer (t ∷ ts) i zero lt some_data part = absurd (omega arith)
call_back_lem buffer (t ∷ ts) zero (suc n) lt some_data part = (
  record t { pending = writing; buffer = buffer; sent = t.sent ++ (take (suc n) buffer ++ 0 ∷ []) }
      ∷ ts,
  ground arith,
  refl,
  refl,
)
call_back_lem buffer (t ∷ ts) (suc i) (suc n) lt some_data part =
    let (ts', e, same, sent) = call_back_lem buffer ts i (suc n) (omega arith) some_data part in
    (t ∷ ts', rw e refl, ap suc same, sent)

abbrev pub lands : List Bytes → List Moment
lands [] = []
lands (y ∷ ys) = landed y ∷ lands ys

-- The buffer after these reads
landed_in : Bytes → List Bytes → Bytes
landed_in buffer [] = buffer
landed_in buffer (y ∷ ys) = landed_in (overwrite 0 y buffer) ys

length-landed_in : (b : Bytes) (ys : List Bytes) → length (landed_in b ys) ≡ length b
unfolding landed_in
length-landed_in b [] = refl
length-landed_in b (y ∷ ys) = length-landed_in (overwrite 0 y b) ys ∙ length-overwrite 0 y b

landed_in-last :
    (b : Bytes) (ys : List Bytes) (y : Bytes)
    → landed_in b (ys ++ y ∷ []) ≡ overwrite 0 y (landed_in b ys)
unfolding landed_in
landed_in-last b [] y = refl
landed_in-last b (x ∷ ys) y = landed_in-last (overwrite 0 x b) ys y

moments-lands :
    (s : Shared) (ys : List Bytes) (ms : List Moment)
    → moments s (lands ys ++ ms) ≡ moments (record s { buffer = landed_in s.buffer ys }) ms
unfolding moments landed_in
moments-lands s [] ms = refl
moments-lands s (y ∷ ys) ms = moments-lands (record s { buffer = overwrite 0 y s.buffer }) ys ms

-- A chunk whose callback runs before another read lands is sent as it was read, whatever lands
-- later. If any other reads land between a read of the bytes `x` and its callback, and the last one
-- of them is of the bytes `y`, which are no fewer, the client is sent the beginning of `y` instead
-- of `x`.
pub shared_lem :
    (s : Shared) (i : ℕ) (x y : Bytes) (ys : List Bytes)
    → length s.buffer ≡ 8192
    → i < length s.connections
    → (0 < length x) × (length x < 8192)
    → (length x ≤ length y) × (length y ≤ 8192)
    → ((t : Shared) × (moments s (landed x ∷ called i (pos (length x)) ∷ lands ys) ≡ ok t)
        × (sent_by t.connections i ≡ sent_by s.connections i ++ (x ++ 0 ∷ [])))
      × ((t : Shared) × (moments s
              (landed x ∷ (lands (ys ++ y ∷ []) ++ called i (pos (length x)) ∷ []))
            ≡ ok t)
          × (sent_by t.connections i ≡ sent_by s.connections i ++ (take (length x) y ++ 0 ∷ [])))
unfolding moments
shared_lem s i x y ys size lt (some_data, part) (no_fewer, fit) =
    let b = overwrite 0 x s.buffer in
    let (ts, e, _, sent) = call_back_lem b s.connections i (length x) lt some_data part in
    let b' = landed_in b (ys ++ y ∷ []) in
    let (us, e', _, sent') = call_back_lem b' s.connections i (length x) lt some_data part in
    (
      (
        record { buffer = landed_in b ys; connections = ts },
        rw e (
            ap (moments (record { buffer = b; connections = ts })) (sym (append-nil (lands ys)))
            ∙ moments-lands (record { buffer = b; connections = ts }) ys []),
        sent ∙ ap (λ xs. sent_by s.connections i ++ (xs ++ 0 ∷ [])) own,
      ),
      (
        record { buffer = b'; connections = us },
        moments-lands (record s { buffer = b }) (ys ++ y ∷ []) (called i (pos (length x)) ∷ [])
            ∙ rw e' refl,
        sent'
            ∙ ap (λ xs. sent_by s.connections i ++ (take (length x) xs ++ 0 ∷ []))
                (landed_in-last b ys y)
            ∙ ap (λ xs. sent_by s.connections i ++ (xs ++ 0 ∷ [])) other,
      ),
    )
  where
    own : take (length x) (overwrite 0 x s.buffer) ≡ x
    own = take-overwrite 0 (length x) x s.buffer (omega arith) (omega arith)

    before : Bytes
    before = landed_in (overwrite 0 x s.buffer) ys

    other : take (length x) (overwrite 0 y before) ≡ take (length x) y
    other =
        sym (take-take (length x) (length y) (overwrite 0 y before) no_fewer)
        ∙ ap (take (length x)) (
            take-overwrite 0 (length y) y before
              (omega (
                arith,
                length-landed_in (overwrite 0 x s.buffer) ys,
                length-overwrite 0 x s.buffer,
              ))
              (omega arith))
