-- ===== src/Chat/Server/Input.antt =====
-- The server's read and connection callbacks.
use learnuv.Base.{
  ◌≤◌, length_error, out_of_range, ℕ, ◌+◌, ◌<◌, ◌≡◌, subst, ◌∙◌, inl, [], ◌∷◌, ◌++◌, arith, Bytes,
  length, ok, List, ◌^◌, Failure, fail, ◌≢◌, ◌⊎◌, ◌↔◌, All, refl, sym, inr, true, false, ◌==◌,
  Bool-cases, ==→eq, ==-false→ne, exited,
}
use learnuv.Base.Int.{pos, negsuc}
use learnuv.Buffer.Inv.{IsValid}
use learnuv.Buffer.Append.{append_negative}
use learnuv.Codec.Feed.{on_uv_read_fails}
use learnuv.Uv.{error, nread_size, eof}
use learnuv.Chat.Server.{Server, on_read, read_bytes, erase, on_connection}

pub on_read_error :
    (s : Server) (conn k : ℕ) (base : Bytes)
    → IsValid s.codec.buffer
    → k < 2 ^ 31
    → length base < 2 ^ 32
    → (f : Failure) × (on_read s conn (error k) base ≡ fail f)
      × (((s.codec.buffer.writer_index ≤ k) × (f ≡ length_error))
          ⊎ ((k < s.codec.buffer.writer_index) × (f ≡ out_of_range)))
unfolding on_read read_bytes
on_read_error s conn k base v small short =
    let (f, e, why) = append_negative v base k small short in
    (f, rw (on_uv_read_fails s.codec (nread_size k) base f e), why)

-- The connection is in the list.
abbrev pub Has : ℕ → List ℕ → Type 0
Has c [] = ⊥
Has c (d ∷ ds) = (c ≡ d) ⊎ Has c ds

abbrev pub IsDistinct : List ℕ → Type 0
IsDistinct [] = Unit {0}
IsDistinct (c ∷ cs) = (¬ Has c cs) × IsDistinct cs

-- The registered connections are distinct, and older than the next id.
pub record IsRegistered (s : Server) : Type 0 where
  pub distinct : IsDistinct s.conns
  pub older : All (λ c. c < s.connections) s.conns

erase_lem :
    (c : ℕ) (cs : List ℕ) → IsDistinct cs → (d : ℕ) → Has d (erase c cs) ↔ (Has d cs × (d ≢ c))
unfolding erase
erase_lem c [] h d = (λ x. absurd x, λ x. x.0)
erase_lem c (e ∷ es) h d = elim (Bool-cases (e == c)) [
  | inl hit ↦ rw hit (
    (λ x. (inr x, λ eq. h.0 (subst (λ y. Has y es) (eq ∙ sym (==→eq hit)) x))),
    λ x. elim x.0 [ inl eq ↦ absurd (x.1 (eq ∙ ==→eq hit)) | inr y ↦ y ],
  )
  | inr miss ↦ rw miss (
    elim [
      | inl eq ↦ (inl eq, λ k. ==-false→ne miss (sym eq ∙ k))
      | inr y ↦ let r = (erase_lem c es h.1 d).0 y in (inr r.0, r.1)
    ],
    λ x. elim x.0 [ inl eq ↦ inl eq | inr y ↦ inr ((erase_lem c es h.1 d).1 (y, x.1)) ],
  )
]

erase-IsDistinct : (c : ℕ) (cs : List ℕ) → IsDistinct cs → IsDistinct (erase c cs)
unfolding erase
erase-IsDistinct c [] h = tt
erase-IsDistinct c (e ∷ es) h = elim (Bool-cases (e == c)) [
  | inl hit ↦ rw hit h.1
  | inr miss ↦ rw miss ((λ x. h.0 ((erase_lem c es h.1 e).0 x).0), erase-IsDistinct c es h.1)
]

erase-All : (P : ℕ → Type 0) (c : ℕ) (cs : List ℕ) → All P cs → All P (erase c cs)
unfolding erase
erase-All P c [] h = tt
erase-All P c (e ∷ es) h = elim (Bool-cases (e == c)) [
  | inl hit ↦ rw hit h.1
  | inr miss ↦ rw miss (h.0, erase-All P c es h.1)
]

All-Has : (n c : ℕ) (cs : List ℕ) → All (λ d. d < n) cs → Has c cs → c < n
All-Has n c [] h x = absurd x
All-Has n c (d ∷ ds) h (inl e) = omega arith
All-Has n c (d ∷ ds) h (inr x) = All-Has n c ds h.1 x

Has-snoc : (c d : ℕ) (cs : List ℕ) → Has c (cs ++ d ∷ []) → Has c cs ⊎ (c ≡ d)
Has-snoc c d [] (inl e) = inr e
Has-snoc c d [] (inr x) = absurd x
Has-snoc c d (e ∷ es) (inl h) = inl (inl h)
Has-snoc c d (e ∷ es) (inr x) = elim (Has-snoc c d es x) [ inl y ↦ inl (inr y) | inr h ↦ inr h ]

snoc-IsDistinct :
    (c : ℕ) (cs : List ℕ) → All (λ d. d < c) cs → IsDistinct cs → IsDistinct (cs ++ c ∷ [])
snoc-IsDistinct c [] a h = ((λ x. x), tt)
snoc-IsDistinct c (d ∷ ds) a h = (
  (λ x. elim (Has-snoc d c ds x) [ inl y ↦ h.0 y | inr e ↦ omega arith ]),
  snoc-IsDistinct c ds a.1 h.1,
)

pub snoc-All :
    (n m : ℕ) (cs : List ℕ) → n < m → All (λ d. d < n) cs → All (λ d. d < m) (cs ++ n ∷ [])
snoc-All n m [] lt h = (lt, tt)
snoc-All n m (d ∷ ds) lt h = (omega arith, snoc-All n m ds lt h.1)

-- The end of a client's stream removes this connection from the distinct registered ones, keeps
-- every other one, writes nothing, and changes neither buffer; the ones that are left are
-- registered as before.
pub on_read_eof :
    (s : Server) (conn : ℕ) (base : Bytes)
    → IsRegistered s
    → (t : Server) × (on_read s conn eof base ≡ ok ([], t))
      × ((d : ℕ) → Has d t.conns ↔ (Has d s.conns × (d ≢ conn)))
      × IsRegistered t
      × (t.codec ≡ s.codec)
      × (t.buf ≡ s.buf)
unfolding on_read
on_read_eof s conn base r = (
  record s { conns = erase conn s.conns },
  refl,
  erase_lem conn s.conns r.distinct,
  record {
    distinct = erase-IsDistinct conn s.conns r.distinct;
    older = erase-All _ conn s.conns r.older;
  },
  refl,
  refl,
)

-- An accepted connection is registered under a new id, distinct from all the others; a failed
-- listen changes nothing, and a failed allocation or accept ends the process.
pub on_connection_lem :
    (s : Server) (e n : ℕ)
    → IsRegistered s
    → (on_connection s (negsuc e) true (pos n) ≡ ok s)
      × ((t : Server) × (on_connection s (pos e) true (pos n) ≡ ok t)
          × (t.conns ≡ s.conns ++ s.connections ∷ [])
          × (¬ Has s.connections s.conns)
          × IsRegistered t)
      × (on_connection s (pos e) false (pos n) ≡ fail exited)
      × (on_connection s (pos e) true (negsuc n) ≡ fail exited)
unfolding on_connection
on_connection_lem s e n r = (
  refl,
  (
    record s { conns = s.conns ++ s.connections ∷ []; connections = s.connections + 1 },
    refl,
    refl,
    (λ x. omega (arith, All-Has s.connections s.connections s.conns r.older x)),
    record {
      distinct = snoc-IsDistinct s.connections s.conns r.older r.distinct;
      older = snoc-All s.connections (s.connections + 1) s.conns (omega arith) r.older;
    },
  ),
  refl,
  refl,
)
