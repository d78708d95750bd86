-- ===== src/Output/Shared.antt =====
-- Several writers of one file of crates/core/src/output.rs, in any order of their steps.
use trace.Output.{SharedFile, Attempt, no_lock, cut_off, whole, commit, write, flush}
use trace.Prelude.{
  All, Bool, Bool-cases, List, [], append-nil, append_assoc, arith, if◌then◌else◌, inl, inr, length,
  refl, sym, ℕ, ◌++◌, ◌==◌, ◌∙◌, ◌∷◌, ◌≡◌,
}
use trace.Prelude.{ap}
use trace.Prelude.{map}

-- One writer puts bytes into its buffer, or flushes it.
pub data Step : Type 0 where
  puts : ℕ → List ℕ → Step
  flushes : ℕ → Attempt → Bool → Step

abbrev pub with_file : ℕ → SharedFile → (ℕ → SharedFile) → ℕ → SharedFile
with_file i s files j = if j == i then s else files j

unfoldable pub step : Step → List ℕ × (ℕ → SharedFile) → List ℕ × (ℕ → SharedFile)
step (puts i bytes) (file, files) = (file, with_file i (write bytes (files i)) files)
step (flushes i a ok) (file, files) =
    let (_, file', s) = flush a ok file (files i) in (file', with_file i s files)

unfoldable pub run : List Step → List ℕ × (ℕ → SharedFile) → List ℕ × (ℕ → SharedFile)
run [] state = state
run (s ∷ steps) state = run steps (step s state)

-- No write of the system fails half-way.
abbrev pub IsWhole : Step → Type 0
IsWhole (puts i bytes) = Unit {0}
IsWhole (flushes i no_lock ok) = Unit {0}
IsWhole (flushes i (cut_off n) ok) = ⊥
IsWhole (flushes i whole ok) = Unit {0}

-- Blocks of bytes, each of one writer, one after the other.
unfoldable pub joined : List (ℕ × List ℕ) → List ℕ
joined [] = []
joined ((i, b) ∷ blocks) = b ++ joined blocks

-- What one writer puts between its flushes, from what its buffer holds at first: a piece for each
-- flush that takes the lock, and what has not gone out.
unfoldable pub pieces : ℕ → List ℕ → List Step → List (List ℕ) × List ℕ
pieces j held [] = ([], held)
pieces j held (puts i bytes ∷ steps) = pieces j (if j == i then held ++ bytes else held) steps
pieces j held (flushes i no_lock ok ∷ steps) = pieces j held steps
pieces j held (flushes i _ ok ∷ steps) =
    let (out, left) = pieces j [] steps in
    let (others, kept) = pieces j held steps in
    if j == i then (held ∷ out, left) else (others, kept)

-- The writers of the flushes that take the lock, in their order.
unfoldable pub flushers : List Step → List ℕ
flushers [] = []
flushers (puts i bytes ∷ steps) = flushers steps
flushers (flushes i no_lock ok ∷ steps) = flushers steps
flushers (flushes i _ ok ∷ steps) = i ∷ flushers steps

-- The blocks of one writer.
unfoldable pub blocks_of : ℕ → List (ℕ × List ℕ) → List (List ℕ)
blocks_of j [] = []
blocks_of j ((i, b) ∷ blocks) = if j == i then b ∷ blocks_of j blocks else blocks_of j blocks

length-nil : (xs : List ℕ) → length xs ≡ 0 → xs ≡ []
length-nil [] e = refl
length-nil (x ∷ xs) e = absurd (omega arith)

-- A flush that takes the lock moves the whole buffer to the end of the file.
flush_whole :
    (ok : Bool) (file : List ℕ) (s : SharedFile)
    → let (_, file', s') = flush whole ok file s in (file' ≡ file ++ s.buf) × (s'.buf ≡ [])
unfolding flush commit
flush_whole ok file s = elim (Bool-cases (length s.buf == 0)) [
  | inl empty ↦
      let nothing = length-nil s.buf (ground arith) in
      rw (empty, nothing) (sym (append-nil file), refl)
  | inr more ↦ rw more (refl, refl)
]

flush_no_lock :
    (ok : Bool) (file : List ℕ) (s : SharedFile)
    → let (_, file', s') = flush no_lock ok file s in (file' ≡ file) × (s' ≡ s)
unfolding flush commit
flush_no_lock ok file s = elim (Bool-cases (length s.buf == 0)) [
  | inl empty ↦ rw empty (refl, refl)
  | inr more ↦ rw more (refl, refl)
]

-- Writers begin with any file and any buffers, and put and flush in any order, where a lock may fail
-- to be taken but no write stops half-way. Then the file grows by whole blocks, one for each flush that
-- takes the lock, in the order of the flushes. The blocks of every writer are what it held at first and
-- put up to its first such flush, and what it put from each one to the next, which may be nothing; and
-- what it put since the last one is what its buffer holds.
pub run-joined :
    (steps : List Step) (file : List ℕ) (files : ℕ → SharedFile)
    → All IsWhole steps
    → let (file', files') = run steps (file, files) in
      (blocks : List (ℕ × List ℕ)) × (file' ≡ file ++ joined blocks)
      × (map (λ b. b.0) blocks ≡ flushers steps)
      × ((j : ℕ) → pieces j (files j).buf steps ≡ (blocks_of j blocks, (files' j).buf))
unfolding run step pieces flushers joined blocks_of write
run-joined [] file files h = ([], sym (append-nil file), refl, λ j. refl)
run-joined (puts i bytes ∷ steps) file files h =
    let (blocks, e, order, each) =
      run-joined steps file (with_file i (write bytes (files i)) files) (h.1) in
    (
      blocks,
      e,
      order,
      λ j. elim (Bool-cases (j == i)) [
        | inl same ↦
            let q : i ≡ j = ground arith in
            rw same
              (ap (λ k. pieces j ((files k).buf ++ bytes) steps) (sym q) ∙ rw same at (each j))
        | inr apart ↦ rw apart (rw apart at (each j))
      ],
    )
run-joined (flushes i no_lock ok ∷ steps) file files h =
    let (_, file1, s) = flush no_lock ok file (files i) in
    let (still, same_buffer) = flush_no_lock ok file (files i) in
    let (blocks, e, order, each) = run-joined steps file1 (with_file i s files) (h.1) in
    (
      blocks,
      e ∙ ap (λ f. f ++ joined blocks) still,
      order,
      λ j. elim (Bool-cases (j == i)) [
        | inl same ↦
            let q : i ≡ j = ground arith in
            ap (λ k. pieces j (files k).buf steps) (sym q)
            ∙ ap (λ (t : SharedFile). pieces j t.buf steps) (sym same_buffer)
            ∙ rw same at (each j)
        | inr apart ↦ rw apart at (each j)
      ],
    )
run-joined (flushes i (cut_off n) ok ∷ steps) file files h = absurd (h.0)
run-joined (flushes i whole ok ∷ steps) file files h =
    let (_, file1, s) = flush whole ok file (files i) in
    let (grown, cleared) = flush_whole ok file (files i) in
    let (blocks, e, order, each) = run-joined steps file1 (with_file i s files) (h.1) in
    (
      (i, (files i).buf) ∷ blocks,
      e ∙ ap (λ f. f ++ joined blocks) grown ∙ append_assoc file ((files i).buf) (joined blocks),
      ap (◌∷◌ i) order,
      λ j. elim (Bool-cases (j == i)) [
        | inl same ↦
            let q : i ≡ j = ground arith in
            let r : pieces j s.buf steps
                ≡ (blocks_of j blocks, ((run steps (file1, with_file i s files)).1 j).buf) =
              rw same at (each j) in
            let rest : pieces j [] steps
                ≡ (blocks_of j blocks, ((run steps (file1, with_file i s files)).1 j).buf) =
              ap (λ held. pieces j held steps) (sym cleared) ∙ r in
            rw same (
              ap (λ k. ((files k).buf ∷ (pieces j [] steps).0, (pieces j [] steps).1)) (sym q)
              ∙ ap (λ (p : List (List ℕ) × List ℕ). ((files i).buf ∷ p.0, p.1)) rest)
        | inr apart ↦ rw apart (rw apart at (each j))
      ],
    )
