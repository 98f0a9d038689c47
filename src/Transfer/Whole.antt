-- ===== src/Transfer/Whole.antt =====
-- A file that is sent rest a whole.
use learnuv.Base.{
  ℕ, ◌+◌, ◌<◌, ◌≡◌, List, [], ◌∷◌, ◌++◌, arith, Bytes, length, overwrite, concat, All,
  take-overwrite, ok, refl, sym, ◌∙◌, append-nil, append_assoc, length-append, length-overwrite,
  out_of_range, fail,
}
use learnuv.Base.Int.{pos, negsuc}
use learnuv.Transfer.{
  reading, cleaned, Transfer, Answer, on_read, on_write_end, on_shutdown, on_fs_close, on_tcp_close,
  callback, run, Pending, opening, writing, shutting_down, stopped, on_file_open, closing_file,
  closing_tcp,
}

abbrev pub done : Answer
done = record { result = pos 0; bytes = [] }

-- Each chunk is read and then written.
abbrev pub chunk_answers : List Bytes → List Answer
chunk_answers [] = []
chunk_answers (c ∷ cs) = record { result = pos (length c); bytes = c } ∷ done ∷ chunk_answers cs

-- The end of the file, the shutdown, and the two closes.
abbrev pub end_answers : List Answer
end_answers = done ∷ done ∷ done ∷ done ∷ []

-- What a client gets of the chunks
abbrev pub with_zeros : List Bytes → Bytes
with_zeros [] = []
with_zeros (c ∷ cs) = (c ++ 0 ∷ []) ++ with_zeros cs

-- A read that is neither the end of the file nor fills the buffer
abbrev pub IsPart : Bytes → Type 0
IsPart c = (0 < length c) × (length c < 8192)

chunk_step :
    (t : Transfer) (c : Bytes) (rest : List Answer)
    → t.pending ≡ reading
    → length t.buffer ≡ 8192
    → IsPart c
    → run t (record { result = pos (length c); bytes = c } ∷ done ∷ rest)
      ≡ run (record t { buffer = overwrite 0 c t.buffer; sent = t.sent ++ (c ++ 0 ∷ []) }) rest
unfolding run callback on_read on_write_end
chunk_step t [] rest p m h = absurd (omega arith)
chunk_step t (x ∷ xs) rest p m h =
    ground
      (arith, p, take-overwrite 0 (length (x ∷ xs)) (x ∷ xs) t.buffer (omega arith) (omega arith))

-- A file that is read in parts, none of which fills the buffer, is sent completely and the
-- connection and the file are then closed and the context is freed, but with a zero byte behind
-- every part, so the client gets more bytes than the file has.
pub transfer_lem :
    (t : Transfer) (cs : List Bytes)
    → t.pending ≡ reading
    → length t.buffer ≡ 8192
    → All IsPart cs
    → (t' : Transfer) × (run t (chunk_answers cs ++ end_answers) ≡ ok t')
      × (t'.pending ≡ cleaned)
      × (t'.sent ≡ t.sent ++ with_zeros cs)
      × (length t'.sent ≡ length t.sent + length (concat cs) + length cs)
unfolding run callback on_read on_shutdown on_fs_close on_tcp_close
transfer_lem t [] p m h =
    (record t { pending = cleaned }, rw p refl, refl, sym (append-nil t.sent), omega arith)
transfer_lem t (c ∷ cs) p m h =
    let t₁ = record t { buffer = overwrite 0 c t.buffer; sent = t.sent ++ (c ++ 0 ∷ []) } in
    let (t', e, cleaned_up, sent, size) =
      transfer_lem t₁ cs p (length-overwrite 0 c t.buffer ∙ m) h.1 in
    (
      t',
      chunk_step t c (chunk_answers cs ++ end_answers) p m h.0 ∙ e,
      cleaned_up,
      sent ∙ append_assoc t.sent (c ++ 0 ∷ []) (with_zeros cs),
      omega (
        arith,
        size,
        length-append t.sent (c ++ 0 ∷ []),
        length-append c (0 ∷ []),
        length-append c (concat cs),
      ),
    )

-- A read that fills the buffer, as every read of a larger file can, makes `on_read` write past the
-- end of its copy; before it, the parts that were read are sent as ever.
pub overrun_lem :
    (t : Transfer) (cs : List Bytes) (full : Bytes) (rest : List Answer)
    → t.pending ≡ reading
    → length t.buffer ≡ 8192
    → All IsPart cs
    → length full ≡ 8192
    → run t (chunk_answers cs ++ record { result = pos (length full); bytes = full } ∷ rest)
      ≡ fail out_of_range
unfolding run callback on_read
overrun_lem t [] full rest p m h f = rw (p, f) refl
overrun_lem t (c ∷ cs) full rest p m h f =
    chunk_step t c (chunk_answers cs ++ record { result = pos (length full); bytes = full } ∷ rest)
      p m h.0
    ∙ overrun_lem (record t { buffer = overwrite 0 c t.buffer; sent = t.sent ++ (c ++ 0 ∷ []) }) cs
        full rest p (length-overwrite 0 c t.buffer ∙ m) h.1 f

-- A request whose result the code looks at
abbrev pub IsChecked : Pending → Type 0
IsChecked opening = Unit {0}
IsChecked reading = Unit {0}
IsChecked writing = Unit {0}
IsChecked shutting_down = Unit {0}
IsChecked _ = ⊥

callback-stopped : (t : Transfer) (q : Pending) (a : Answer) → q ≡ stopped → callback t q a ≡ ok t
unfolding callback
callback-stopped t q a e = rw e refl

run-stopped : (t : Transfer) (answers : List Answer) → t.pending ≡ stopped → run t answers ≡ ok t
unfolding run
run-stopped t [] p = refl
run-stopped t (a ∷ rest) p = rw (callback-stopped t t.pending a p) (run-stopped t rest p)

callback-negative :
    (t : Transfer) (q : Pending) (code : ℕ)
    → IsChecked q
    → callback t q (record { result = negsuc code; bytes = [] })
      ≡ ok (record t { pending = stopped })
unfolding callback on_file_open on_read on_write_end on_shutdown
callback-negative t opening code c = refl
callback-negative t reading code c = refl
callback-negative t writing code c = refl
callback-negative t shutting_down code c = refl
callback-negative t closing_file code c = absurd c
callback-negative t closing_tcp code c = absurd c
callback-negative t stopped code c = absurd c
callback-negative t cleaned code c = absurd c

-- If opening, reading, writing or the shutdown fails, the connection sends nothing more and is
-- never closed, whatever is answered later.
pub failure_lem :
    (t : Transfer) (code : ℕ) (rest : List Answer)
    → IsChecked t.pending
    → (t' : Transfer) × (run t (record { result = negsuc code; bytes = [] } ∷ rest) ≡ ok t')
      × (t'.pending ≡ stopped)
      × (t'.sent ≡ t.sent)
unfolding run
failure_lem t code rest c = (
  record t { pending = stopped },
  rw (callback-negative t t.pending code c)
      (run-stopped (record t { pending = stopped }) rest refl),
  refl,
  refl,
)
