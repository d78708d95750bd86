-- ===== src/Codewatch/Freed.antt =====
-- The notice of a freed code object (crates/py/src/codewatch.rs) and the caches of a thread.
use trace.Intern.{Interner, forget, lookup}
use trace.Intern.Live.{IsValid, forget-IsValid, forget-false}
use trace.Tls.{Hot}
use trace.Codecache.{CodeCache}
use trace.Monitoring.Caches.{IsCoherent}
use trace.Codewatch.{forget_all, on_code_event, code_event_destroy}
use trace.Prelude.{All, List, false, none, ℕ, ◌∷◌, ◌≡◌}
use trace.Prelude.{Bool, [], ap₂, arith, get_elem?, refl, some, ◌-◌, ◌<◌, ◌^◌, ◌||◌, ◌≤◌}
use trace.Prelude.{Bool-cases, ap, inl, inr, some-injective, suc, zero, ◌%◌, ◌+◌, ◌∙◌}

-- Where no state knew the code object, none of them changes.
forget_all_unknown :
    (key : ℕ) (watched : List (Interner × ℕ))
    → (forget_all key watched).0 ≡ false
    → (forget_all key watched).1 ≡ watched
unfolding forget_all
forget_all_unknown key [] e = refl
forget_all_unknown key ((i, raw) ∷ watched) e =
    let (here, there) = both ((forget key raw i).0) ((forget_all key watched).0) e in
    ap₂ (λ j rest. (j, raw) ∷ rest) (forget-false i key raw here)
      (forget_all_unknown key watched there)
  where
    both : (a b : Bool) → (a || b) ≡ false → (a ≡ false) × (b ≡ false)
    both a b h = ground arith

forget_all-lookup :
    (key : ℕ) (watched : List (Interner × ℕ))
    → All (λ (w : Interner × ℕ). IsValid (w.0)) watched
    → All
        (λ (w : Interner × ℕ). IsValid (w.0) × (lookup key (w.0) ≡ none))
        ((forget_all key watched).1)
unfolding forget_all
forget_all-lookup key [] v = tt
forget_all-lookup key ((i, raw) ∷ watched) v =
    let (valid, _, gone, _, _) = forget-IsValid i key raw (v.0) in
    ((valid, gone), forget_all-lookup key watched (v.1))

forget_all-index :
    (key index raw : ℕ) (watched : List (Interner × ℕ)) (i : Interner)
    → get_elem? watched index ≡ some (i, raw)
    → get_elem? ((forget_all key watched).1) index ≡ some ((forget key raw i).1, raw)
unfolding forget_all
forget_all-index key index raw [] i e = cc
forget_all-index key zero raw (w ∷ watched) i e =
    ap (λ (w : Interner × ℕ). some ((forget key w.1 (w.0)).1, w.1)) (some-injective _ _ e)
forget_all-index key (suc index) raw (w ∷ watched) i e = forget_all-index key index raw watched i e

-- A notice that a code object is freed takes it out of every interner that is alive; and the caches
-- of a thread that were coherent with one of them still are: those that may name the freed object are
-- of an older generation now.
pub on_code_event-IsCoherent :
    (key generation run index raw : ℕ) (watched : List (Interner × ℕ)) (i : Interner) (h : Hot)
    (codes : CodeCache)
    → All (λ (w : Interner × ℕ). IsValid (w.0)) watched
    → get_elem? watched index ≡ some (i, raw)
    → IsCoherent generation run i h codes
    → h.code_gen ≤ generation
    → generation < 2 ^ 64 - 1
    → let (after, generation') = on_code_event code_event_destroy key watched generation in
      All (λ (w : Interner × ℕ). IsValid (w.0) × (lookup key (w.0) ≡ none)) after
      × ((j : Interner) × (get_elem? after index ≡ some (j, raw))
          × IsCoherent generation' run j h codes)
      × (h.code_gen ≤ generation')
unfolding on_code_event
on_code_event-IsCoherent key generation run index raw watched i h codes v there c old small =
    let gone = forget_all-lookup key watched v in
    elim (Bool-cases ((forget_all key watched).0)) [
      | inl known ↦
          let e : (generation + 1) % 2 ^ 64 ≡ generation + 1 = omega arith in
          rw (known, e)
            (
              gone,
              (
                (forget key raw i).1,
                forget_all-index key index raw watched i there,
                record {
                  sized = c.sized;
                  cache = λ q g. absurd (omega arith);
                  last = λ q g ne. absurd (omega arith);
                },
              ),
              omega arith,
            )
      | inr unknown ↦ rw unknown (
        gone,
        (i, ap (λ ws. get_elem? ws index) (forget_all_unknown key watched unknown) ∙ there, c),
        old,
      )
    ]
