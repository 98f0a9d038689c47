-- ===== src/Chat/Wire/Fronts.antt =====
-- Requests that are all beginnings of the same bytes lose nothing in a shared `sendBuf`.
use learnuv.Base.{
  ℕ, zero, suc, ◌≤◌, ◌≡◌, refl, sym, ap, ap₂, ◌∙◌, List, [], ◌∷◌, ◌++◌, append_assoc, arith, Bytes,
  length, take, drop, overwrite, All, subst, append-nil, concat, All-append, length-take,
  take-overwrite, length-overwrite, length-append, take-append,
}
use learnuv.Chat.Wire.{
  Move, make, take_oldest, Wire, post, read_oldest, moves, read_oldest-cons, read_oldest-none,
}

-- What the moves ask for
abbrev pub made : List Move → List Bytes
made [] = []
made (make x ∷ ms) = x ∷ made ms
made (take_oldest ∷ ms) = made ms

-- What is read for requests of these lengths
abbrev pub cuts : List ℕ → Bytes → Bytes
cuts [] buf = []
cuts (n ∷ ns) buf = take n buf ++ cuts ns buf

-- A beginning of `all` that a memory of `size` bytes holds
abbrev pub IsFront : Bytes → ℕ → Bytes → Type 0
IsFront all size x = (k : ℕ) × (k ≤ length all) × (k ≤ size) × (x ≡ take k all)

pub IsFront-append :
    (all more : Bytes) (size : ℕ) (xs : List Bytes)
    → All (IsFront all size) xs
    → All (IsFront (all ++ more) size) xs
IsFront-append all more size [] h = tt
IsFront-append all more size (x ∷ xs) ((k, short, fits, e), h) = (
  (k, omega (arith, length-append all more), fits, e ∙ sym (take-append k all more short)),
  IsFront-append all more size xs h,
)

abbrev pub Agrees : Bytes → Bytes → ℕ → Type 0
Agrees all buf n = take n buf ≡ take n all

cuts-Agrees : (all buf : Bytes) (ns : List ℕ) → All (Agrees all buf) ns → cuts ns buf ≡ cuts ns all
cuts-Agrees all buf [] h = refl
cuts-Agrees all buf (n ∷ ns) (e, h) = ap₂ ◌++◌ e (cuts-Agrees all buf ns h)

cuts-append : (ns ns' : List ℕ) (x : Bytes) → cuts (ns ++ ns') x ≡ cuts ns x ++ cuts ns' x
cuts-append [] ns' x = refl
cuts-append (n ∷ ns) ns' x =
    ap (λ y. take n x ++ y) (cuts-append ns ns' x)
    ∙ sym (append_assoc (take n x) (cuts ns x) (cuts ns' x))

-- Writing a beginning of `all` keeps what agrees with it.
Agrees-overwrite :
    (n k : ℕ) (all buf : Bytes)
    → k ≤ length all
    → k ≤ length buf
    → Agrees all buf n
    → Agrees all (overwrite 0 (take k all) buf) n
Agrees-overwrite n zero all buf h h' e = e
Agrees-overwrite zero (suc k) all buf h h' e = refl
Agrees-overwrite (suc n) (suc k) [] buf h h' e = absurd (omega arith)
Agrees-overwrite (suc n) (suc k) (a ∷ all) [] h h' e = absurd (omega arith)
Agrees-overwrite (suc n) (suc k) (a ∷ all) (b ∷ buf) h h' e =
    ap (◌∷◌ a) (Agrees-overwrite n k all buf (omega arith) (omega arith) (ap (drop 1) e))

Agrees-overwrite-All :
    (k : ℕ) (all buf : Bytes) (ns : List ℕ)
    → k ≤ length all
    → k ≤ length buf
    → All (Agrees all buf) ns
    → All (Agrees all (overwrite 0 (take k all) buf)) ns
Agrees-overwrite-All k all buf [] h h' e = tt
Agrees-overwrite-All k all buf (n ∷ ns) h h' (e, es) =
    (Agrees-overwrite n k all buf h h' e, Agrees-overwrite-All k all buf ns h h' es)

-- What was read and what waits, joined, are the requests in their order.
pub record Whole (all : Bytes) (w : Wire) (rest : Bytes) (w' : Wire) : Type 0 where
  pub joined : w'.out ++ cuts w'.waiting w'.send_buf ≡ (w.out ++ cuts w.waiting w.send_buf) ++ rest
  pub agree : All (Agrees all w'.send_buf) w'.waiting
  pub size : length w'.send_buf ≡ length w.send_buf

post-Whole :
    (all : Bytes) (w : Wire) (k : ℕ)
    → k ≤ length all
    → k ≤ length w.send_buf
    → All (Agrees all w.send_buf) w.waiting
    → Whole all w (take k all) (post w (take k all))
unfolding post
post-Whole all w k h h' e =
    let x = take k all in
    let buf = overwrite 0 x w.send_buf in
    let size : length x ≡ k = omega (arith, length-take k all) in
    let front : take (length x) buf ≡ x =
      take-overwrite 0 (length x) x w.send_buf (omega arith) (omega arith) in
    let es = Agrees-overwrite-All k all w.send_buf w.waiting h h' e in
    record {
      joined =
          ap (λ y. w.out ++ y)
            (cuts-append w.waiting (length x ∷ []) buf
              ∙ ap₂ ◌++◌
                  (cuts-Agrees all buf w.waiting es ∙ sym (cuts-Agrees all w.send_buf w.waiting e))
                  (append-nil (take (length x) buf) ∙ front))
          ∙ sym (append_assoc w.out (cuts w.waiting w.send_buf) x);
      agree =
          All-append (Agrees all buf) w.waiting (length x ∷ []) es
            (front ∙ sym (ap (λ n. take n all) size), tt);
      size = length-overwrite 0 x w.send_buf;
    }

read_oldest-Whole :
    (all : Bytes) (w : Wire)
    → All (Agrees all w.send_buf) w.waiting
    → Whole all w [] (read_oldest w)
read_oldest-Whole all w e = by_waiting w.waiting refl
  where
    by_waiting : (ns : List ℕ) → w.waiting ≡ ns → Whole all w [] (read_oldest w)
    by_waiting [] waits = subst (Whole all w []) (sym (read_oldest-none w waits)) (record {
      joined = sym (append-nil (w.out ++ cuts w.waiting w.send_buf));
      agree = e;
      size = refl;
    })
    by_waiting (n ∷ ns) waits =
        subst (Whole all w []) (sym (read_oldest-cons w n ns waits)) (record {
          joined =
              append_assoc w.out (take n w.send_buf) (cuts ns w.send_buf)
              ∙ ap (λ q. w.out ++ cuts q w.send_buf) (sym waits)
              ∙ sym (append-nil (w.out ++ cuts w.waiting w.send_buf));
          agree = (subst (All (Agrees all w.send_buf)) waits e).1;
          size = refl;
        })

Whole-trans :
    (all : Bytes) (w w' w'' : Wire) (x y : Bytes)
    → Whole all w x w'
    → Whole all w' y w''
    → Whole all w (x ++ y) w''
Whole-trans all w w' w'' x y p q = record {
  joined =
      q.joined ∙ ap (λ z. z ++ y) p.joined ∙ append_assoc (w.out ++ cuts w.waiting w.send_buf) x y;
  agree = q.agree;
  size = q.size ∙ p.size;
}

-- Whenever libuv reads, as long as all requests are beginnings of the same bytes and fit into
-- `sendBuf`.
pub moves-Whole :
    (all : Bytes) (w : Wire) (ms : List Move)
    → All (IsFront all (length w.send_buf)) (made ms)
    → All (Agrees all w.send_buf) w.waiting
    → Whole all w (concat (made ms)) (moves w ms)
unfolding moves
moves-Whole all w [] h e = record {
  joined = sym (append-nil (w.out ++ cuts w.waiting w.send_buf));
  agree = e;
  size = refl;
}
moves-Whole all w (make x ∷ ms) ((k, inside, fits, front), h) e =
    let p = subst (λ y. Whole all w y (post w y)) (sym front) (post-Whole all w k inside fits e) in
    Whole-trans all w (post w x) (moves (post w x) ms) x (concat (made ms)) p (
      moves-Whole all (post w x) ms (subst (λ n. All (IsFront all n) (made ms)) (sym p.size) h)
        p.agree)
moves-Whole all w (take_oldest ∷ ms) h e =
    let p = read_oldest-Whole all w e in
    Whole-trans all w (read_oldest w) (moves (read_oldest w) ms) [] (concat (made ms)) p (
      moves-Whole all (read_oldest w) ms (subst (λ n. All (IsFront all n) (made ms)) (sym p.size) h)
        p.agree)
