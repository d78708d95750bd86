-- ===== src/Tls/Recorders.antt =====
-- The list of the threads that record, `RECORDERS` of crates/core/src/tls.rs. A thread is the address
-- of its `Cold`.
use trace.Prelude.{
  ℕ, ◌≤◌, ◌≡◌, refl, true, false, not, List, [], ◌∷◌, ◌++◌, ◌==◌, if◌then◌else◌, any, retain,
  sum_of, sum_of-append, arith, Bool-cases, inl, inr,
}

unfoldable pub register_current : ℕ → List ℕ → List ℕ
register_current cold recorders =
    if any (λ r. r == cold) recorders then recorders else recorders ++ cold ∷ []

unfoldable pub forget : ℕ → List ℕ → List ℕ
forget cold recorders = retain (λ r. not (r == cold)) recorders

unfoldable pub forget_other_threads : ℕ → List ℕ → List ℕ
forget_other_threads cold recorders = retain (λ r. r == cold) recorders

-- How often a thread is listed.
abbrev pub times : ℕ → List ℕ → ℕ
times cold recorders = sum_of (λ r. if r == cold then 1 else 0) recorders

any-times : (cold : ℕ) (rs : List ℕ) → any (λ r. r == cold) rs ≡ false → times cold rs ≡ 0
any-times cold [] e = refl
any-times cold (r ∷ rs) e = ground (arith, any-times cold rs)

times-any : (cold : ℕ) (rs : List ℕ) → any (λ r. r == cold) rs ≡ true → 1 ≤ times cold rs
times-any cold [] e = cc
times-any cold (r ∷ rs) e = ground (arith, times-any cold rs)

times-forget :
    (cold other : ℕ) (rs : List ℕ)
    → times other (retain (λ r. not (r == cold)) rs) ≡ (if other == cold then 0 else times other rs)
times-forget cold other [] = ground arith
times-forget cold other (r ∷ rs) = ground (arith, times-forget cold other rs)

times-forget_others :
    (cold other : ℕ) (rs : List ℕ)
    → times other (retain (λ r. r == cold) rs) ≡ (if other == cold then times other rs else 0)
times-forget_others cold other [] = ground arith
times-forget_others cold other (r ∷ rs) = ground (arith, times-forget_others cold other rs)

-- Where no thread is listed twice: `register_current` lists the thread once and no other thread again,
-- `forget` takes off that thread only, and `forget_other_threads` all threads but that one.
pub recorders_lem :
    (cold other : ℕ) (rs : List ℕ)
    → ((r : ℕ) → times r rs ≤ 1)
    → (times other (register_current cold rs) ≡ (if other == cold then 1 else times other rs))
      × (times other (forget cold rs) ≡ (if other == cold then 0 else times other rs))
      × (times other (forget_other_threads cold rs) ≡ (if other == cold then times other rs else 0))
unfolding register_current forget forget_other_threads
recorders_lem cold other rs h = (
  elim (Bool-cases (any (λ r. r == cold) rs)) [
    | inl listed ↦ rw listed (ground (arith, times-any cold rs listed, h cold))
    | inr absent ↦ rw absent (
        ground (
          arith,
          any-times cold rs absent,
          sum_of-append (λ (r : ℕ). if r == other then 1 else 0) rs (cold ∷ []),
        ))
  ],
  times-forget cold other rs,
  times-forget_others cold other rs,
)
