-- ===== src/Chat/Wire/Queue.antt =====
-- What the server gets of the writes of `test`, which all refer to the one global `sendBuf`.
use learnuv.Base.{
  ℕ, ◌≤◌, ◌≡◌, List, [], ◌∷◌, ◌++◌, Bytes, length, take, overwrite, All, refl, sym, ap, ap₂, subst,
  ◌∙◌, append-nil, append_assoc, arith, concat, length-overwrite, take-overwrite, take-take,
}
use learnuv.Chat.Wire.{Wire, Move, make, take_oldest, post, moves, read_oldest-cons}

-- Every request is read before the next one is made; or all are made before the first is read.
abbrev pub at_once : List Bytes → List Move
at_once [] = []
at_once (s ∷ ss) = make s ∷ take_oldest ∷ at_once ss

abbrev pub all_made : List Bytes → List Move
all_made [] = []
all_made (s ∷ ss) = make s ∷ all_made ss

abbrev pub all_taken : List Bytes → List Move
all_taken [] = []
all_taken (s ∷ ss) = take_oldest ∷ all_taken ss

-- So many bytes of the last request, for each one
abbrev pub cut_from : Bytes → List Bytes → Bytes
cut_from last [] = []
cut_from last (s ∷ ss) = take (length s) last ++ cut_from last ss

abbrev lengths : List Bytes → List ℕ
lengths [] = []
lengths (s ∷ ss) = length s ∷ lengths ss

at_once_lem :
    (w : Wire) (ss : List Bytes)
    → w.waiting ≡ []
    → All (λ s. length s ≤ length w.send_buf) ss
    → (moves w (at_once ss)).out ≡ w.out ++ concat ss
unfolding moves post
at_once_lem w [] e h = sym (append-nil w.out)
at_once_lem w (s ∷ ss) e (fit, h) =
    ap (λ x. (moves x (at_once ss)).out)
      (read_oldest-cons (post w s) (length s) [] (ap (λ q. q ++ length s ∷ []) e))
    ∙ at_once_lem
        (record w {
          send_buf = overwrite 0 s w.send_buf;
          waiting = [];
          out = w.out ++ take (length s) (overwrite 0 s w.send_buf);
        })
        ss refl (subst (λ n. All (λ s. length s ≤ n) ss) (sym (length-overwrite 0 s w.send_buf)) h)
    ∙ ap (λ xs. (w.out ++ xs) ++ concat ss)
        (take-overwrite 0 (length s) s w.send_buf (omega arith) (omega arith))
    ∙ append_assoc w.out s (concat ss)

made_lem :
    (w : Wire) (ss : List Bytes) (ms : List Move)
    → (buf : Bytes) × (length buf ≡ length w.send_buf)
      × (moves w (all_made ss ++ ms)
          ≡ moves (record w { send_buf = buf; waiting = w.waiting ++ lengths ss }) ms)
unfolding moves post
made_lem w [] ms =
    (w.send_buf, refl, ap (λ q. moves (record w { waiting = q }) ms) (sym (append-nil w.waiting)))
made_lem w (s ∷ ss) ms =
    let (buf, size, e) = made_lem (post w s) ss ms in
    (
      buf,
      size ∙ length-overwrite 0 s w.send_buf,
      e
          ∙ ap (λ q. moves (record w { send_buf = buf; waiting = q }) ms)
              (append_assoc w.waiting (length s ∷ []) (lengths ss)),
    )

taken_lem :
    (w : Wire) (ss : List Bytes)
    → w.waiting ≡ lengths ss
    → (moves w (all_taken ss)).out ≡ w.out ++ cut_from w.send_buf ss
unfolding moves
taken_lem w [] e = sym (append-nil w.out)
taken_lem w (s ∷ ss) e =
    ap (λ x. (moves x (all_taken ss)).out) (read_oldest-cons w (length s) (lengths ss) e)
    ∙ taken_lem (record w { waiting = lengths ss; out = w.out ++ take (length s) w.send_buf }) ss
        refl
    ∙ append_assoc w.out (take (length s) w.send_buf) (cut_from w.send_buf ss)

lengths-append :
    (ss : List Bytes) (last : Bytes) → lengths (ss ++ last ∷ []) ≡ lengths ss ++ length last ∷ []
lengths-append [] last = refl
lengths-append (s ∷ ss) last = ap (λ q. length s ∷ q) (lengths-append ss last)

-- What is cut from the buffer is cut from the bytes at its front.
cut_from-overwrite :
    (xs buf : Bytes) (ss : List Bytes)
    → length xs ≤ length buf
    → All (λ s. length s ≤ length xs) ss
    → cut_from (overwrite 0 xs buf) ss ≡ cut_from xs ss
cut_from-overwrite xs buf [] fit h = refl
cut_from-overwrite xs buf (s ∷ ss) fit (short, h) =
    ap₂ ◌++◌
      (sym (take-take (length s) (length xs) (overwrite 0 xs buf) short)
        ∙ ap (take (length s)) (take-overwrite 0 (length xs) xs buf (omega arith) (omega arith)))
      (cut_from-overwrite xs buf ss fit h)

-- If every request is read before the next one is made, the server gets the bytes of the requests,
-- in order. If the requests are all made before any is read, the server gets, for each of them, as
-- many bytes of the last request, when no other is longer: the bytes of the others are lost.
pub queue_lem :
    (w : Wire) (ss : List Bytes) (last : Bytes)
    → w.waiting ≡ []
    → All (λ s. length s ≤ length last) (ss ++ last ∷ [])
    → length last ≤ length w.send_buf
    → ((moves w (at_once (ss ++ last ∷ []))).out ≡ w.out ++ concat (ss ++ last ∷ []))
      × ((moves w (all_made ss ++ make last ∷ all_taken (ss ++ last ∷ []))).out
          ≡ w.out ++ cut_from last (ss ++ last ∷ []))
unfolding moves post
queue_lem w ss last e h fit =
    let (buf, size, made) = made_lem w ss (make last ∷ all_taken (ss ++ last ∷ [])) in
    (
      at_once_lem w (ss ++ last ∷ []) e (shorter (ss ++ last ∷ []) h),
      ap (λ x. x.out) made
          ∙ taken_lem
              (record w {
                send_buf = overwrite 0 last buf;
                waiting = (w.waiting ++ lengths ss) ++ length last ∷ [];
              })
              (ss ++ last ∷ [])
              (ap (λ q. (q ++ lengths ss) ++ length last ∷ []) e ∙ sym (lengths-append ss last))
          ∙ ap (λ xs. w.out ++ xs)
              (cut_from-overwrite last buf (ss ++ last ∷ []) (omega (arith, size)) h),
    )
  where
    shorter :
        (ss : List Bytes)
        → All (λ s. length s ≤ length last) ss
        → All (λ s. length s ≤ length w.send_buf) ss
    shorter [] h = tt
    shorter (s ∷ ss) h = (omega arith, shorter ss h.1)
