-- ===== src/Threads/Answers.antt =====
-- What the threaded server answers.
use learnuv.Base.{
  ℕ, zero, suc, ◌≤◌, ◌<◌, ◌≡◌, refl, ap, ◌∙◌, inl, inr, ◌||◌, List, [], ◌∷◌, arith, Bytes, length,
  replicate, overwrite, All, length-overwrite, ◌==◌, if◌then◌else◌, Bool-cases, ==-false→ne, ok,
  length-replicate, Outcome,
}
use learnuv.Base.Int.{pos, ltb_ℤ}
use learnuv.Uv.{count, c_string}
use learnuv.Threads.{
  global_buf_size, on_new_connection, on_read, Incoming, Ending, end_of_stream, read_error,
  child_loop, main_loop, main,
}

-- The byte at an index, or `d` behind the end.
abbrev pub byte_or : ℕ → ℕ → Bytes → ℕ
byte_or d i [] = d
byte_or d zero (b ∷ x) = b
byte_or d (suc i) (b ∷ x) = byte_or d i x

-- The byte at an index of the last read that was long enough, or zero; the newest read is the
-- first of the list.
abbrev pub latest : ℕ → List Bytes → ℕ
latest i [] = 0
latest i (x ∷ older) = byte_or (latest i older) i x

-- An answer after the reads `heard`.
abbrev pub IsAnswer : List Bytes → Bytes → Type 0
IsAnswer heard answer =
    (length answer ≡ global_buf_size) × ((i : ℕ) → byte_or 0 i answer ≡ latest i heard)

-- One answer for each read.
abbrev pub Answers : List Bytes → List Bytes → List Bytes → Type 0
Answers heard [] [] = Unit {0}
Answers heard (x ∷ xs) (a ∷ as') = IsAnswer (x ∷ heard) a × Answers (x ∷ heard) xs as'
Answers heard _ _ = ⊥

-- What is read from a connection, if it is accepted.
abbrev pub reads_of : Incoming → List Bytes
reads_of c = if ltb_ℤ c.status (pos 0) || ltb_ℤ c.accepted (pos 0) then [] else c.reads

abbrev pub after_reads : List Bytes → List Bytes → List Bytes
after_reads heard [] = heard
after_reads heard (x ∷ xs) = after_reads (x ∷ heard) xs

abbrev pub AnswersAll : List Bytes → List Incoming → List (List Bytes) → Type 0
AnswersAll heard [] [] = Unit {0}
AnswersAll heard (c ∷ cs) (out ∷ outs) =
    Answers heard (reads_of c) out × AnswersAll (after_reads heard (reads_of c)) cs outs
AnswersAll heard _ _ = ⊥

abbrev pub IsShort : Bytes → Type 0
IsShort x = length x < global_buf_size

byte_or-overwrite :
    (d i : ℕ) (x mem : Bytes)
    → length x ≤ length mem
    → byte_or d i (overwrite 0 x mem) ≡ byte_or (byte_or d i mem) i x
byte_or-overwrite d i [] mem h = refl
byte_or-overwrite d i (b ∷ x) [] h = absurd (omega arith)
byte_or-overwrite d zero (b ∷ x) (m ∷ mem) h = refl
byte_or-overwrite d (suc i) (b ∷ x) (m ∷ mem) h = byte_or-overwrite d i x mem (omega arith)

byte_or-replicate : (i n : ℕ) → byte_or 0 i (replicate n 0) ≡ 0
byte_or-replicate i zero = refl
byte_or-replicate zero (suc n) = refl
byte_or-replicate (suc i) (suc n) = byte_or-replicate i n

byte_or-short : (d i : ℕ) (x : Bytes) → length x ≤ i → byte_or d i x ≡ d
byte_or-short d i [] h = refl
byte_or-short d zero (b ∷ x) h = absurd (omega arith)
byte_or-short d (suc i) (b ∷ x) h = byte_or-short d i x (omega arith)

latest-short : (i : ℕ) (heard : List Bytes) → All (λ x. length x ≤ i) heard → latest i heard ≡ 0
latest-short i [] h = refl
latest-short i (x ∷ heard) h = byte_or-short (latest i heard) i x h.0 ∙ latest-short i heard h.1

c_string-zero :
    (mem : Bytes) (i : ℕ)
    → i < length mem
    → byte_or 0 i mem ≡ 0
    → (s : Bytes) × (c_string mem ≡ ok s)
unfolding c_string
c_string-zero [] i h e = absurd (omega arith)
c_string-zero (b ∷ mem) zero h e = elim (Bool-cases (b == 0)) [
  | inl hit ↦ ([], rw hit refl)
  | inr miss ↦ absurd (==-false→ne miss e)
]
c_string-zero (b ∷ mem) (suc i) h e =
    let (s, found) = c_string-zero mem i (omega arith) e in
    elim (Bool-cases (b == 0)) [
      | inl hit ↦ ([], rw hit refl)
      | inr miss ↦ (b ∷ s, rw miss (rw found refl))
    ]

-- `globalBuf` after the reads `heard`.
record Holds (heard : List Bytes) (mem : Bytes) : Type 0 where
  answers : IsAnswer heard mem
  short : All (λ x. length x ≤ 8191) heard

Holds-read :
    (heard : List Bytes) (mem x : Bytes)
    → Holds heard mem
    → IsShort x
    → Holds (x ∷ heard) (overwrite 0 x mem)
Holds-read heard mem x h short = record {
  answers = (
    length-overwrite 0 x mem ∙ h.answers.0,
    λ i.
        byte_or-overwrite 0 i x mem (omega (arith, h.answers.0))
        ∙ ap (λ d. byte_or d i x) (h.answers.1 i),
  );
  short = (omega arith, h.short);
}

answered :
    (n : ℕ) (heard : List Bytes) (mem : Bytes)
    → Holds heard mem
    → on_read (count n) mem ≡ ok (mem ∷ [])
unfolding on_read
answered n heard mem h =
    let (s, found) =
      c_string-zero mem 8191 (omega (arith, h.answers.0))
        (h.answers.1 8191 ∙ latest-short 8191 heard h.short) in
    rw found refl

-- A thread's loop answers its reads, and leaves `globalBuf` as they do.
record Heard (heard xs : List Bytes) (out : Outcome (List Bytes × Bytes)) : Type 0 where
  written : List Bytes
  after : Bytes
  returns : out ≡ ok (written, after)
  answers : Answers heard xs written
  holds : Holds (after_reads heard xs) after

child_loop-Heard :
    (heard xs : List Bytes) (mem : Bytes) (ending : Ending)
    → Holds heard mem
    → All IsShort xs
    → Heard heard xs (child_loop mem xs ending)
unfolding child_loop on_read
child_loop-Heard heard [] mem end_of_stream h short = record {
  written = [];
  after = mem;
  returns = refl;
  answers = tt;
  holds = h;
}
child_loop-Heard heard [] mem (read_error k) h short = record {
  written = [];
  after = mem;
  returns = refl;
  answers = tt;
  holds = h;
}
child_loop-Heard heard (x ∷ xs) mem ending h short =
    let h' = Holds-read heard mem x h short.0 in
    let d = child_loop-Heard (x ∷ heard) xs (overwrite 0 x mem) ending h' short.1 in
    record {
      written = overwrite 0 x mem ∷ d.written;
      after = d.after;
      returns = rw (answered (length x) (x ∷ heard) (overwrite 0 x mem) h') (rw d.returns refl);
      answers = (h'.answers, d.answers);
      holds = d.holds;
    }

on_new_connection-Heard :
    (heard : List Bytes) (c : Incoming) (mem : Bytes)
    → Holds heard mem
    → All IsShort c.reads
    → Heard heard (reads_of c) (on_new_connection c mem)
unfolding on_new_connection
on_new_connection-Heard heard c mem h short = elim (Bool-cases (ltb_ℤ c.status (pos 0))) [
  | inl bad ↦ rw bad (record { written = []; after = mem; returns = refl; answers = tt; holds = h })
  | inr good ↦ rw good (elim (Bool-cases (ltb_ℤ c.accepted (pos 0))) [
    | inl bad ↦
        rw bad (record { written = []; after = mem; returns = refl; answers = tt; holds = h })
    | inr fine ↦ rw fine (child_loop-Heard heard c.reads mem c.ending h short)
  ])
]

main_loop-AnswersAll :
    (heard : List Bytes) (cs : List Incoming) (mem : Bytes)
    → Holds heard mem
    → All (λ c. All IsShort c.reads) cs
    → (outs : List (List Bytes)) × (main_loop mem cs ≡ ok outs) × AnswersAll heard cs outs
unfolding main_loop
main_loop-AnswersAll heard [] mem h short = ([], refl, tt)
main_loop-AnswersAll heard (c ∷ cs) mem h short =
    let d = on_new_connection-Heard heard c mem h short.0 in
    let (outs, returned, all) =
      main_loop-AnswersAll (after_reads heard (reads_of c)) cs d.after d.holds short.1 in
    (d.written ∷ outs, rw d.returns (rw returned refl), (d.answers, all))

-- If no read fills the buffer of 8192 bytes, the server never stops in a callback, and it answers
-- every read of every accepted connection, one connection after the other, with 8192 bytes. They
-- begin with the bytes that were read; behind these stand the bytes of the last reads, of this or
-- an earlier connection, that were long enough, and zeros where there was none.
pub main-AnswersAll :
    (cs : List Incoming)
    → All (λ c. All IsShort c.reads) cs
    → (outs : List (List Bytes)) × (main cs ≡ ok outs) × AnswersAll [] cs outs
unfolding main
main-AnswersAll cs short =
    main_loop-AnswersAll [] cs (replicate global_buf_size 0)
      (record {
        answers =
            (length-replicate {A = ℕ} global_buf_size 0, λ i. byte_or-replicate i global_buf_size);
        short = tt;
      })
      short
