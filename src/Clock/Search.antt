-- ===== src/Clock/Search.antt =====
-- A measured clock, for crates/core/src/clock.rs: the two loops of `ticks_from_ns`.
use trace.Prelude.{ℕ, zero, suc, ◌+◌, ◌-◌, ◌*◌, ◌/◌, ◌^◌, ◌≤◌, ◌<◌, ◌≡◌, refl, ◌⊎◌, inl, inr}
use trace.Prelude.{some, arith, saturate64, true, Bool-cases, ltb, le→ltb, tests, ap}
use trace.Clock.{Quanta, measured, Clock, widen, bisect, Reach, reaches, overflows, stuck}
use trace.Clock.{ns_of, ns_since_start, ticks_of, after_widening, ticks_from_ns}
use native.Mathlib.Nat.{pow-suc}

module _ (nanos : ℕ → ℕ) (mono : (a b : ℕ) → a ≤ b → nanos a ≤ nanos b) (ns start : ℕ) where
  -- `t` is the first tick from `start` on that `nanos` takes to `ns` or later.
  abbrev IsFirst : ℕ → Type 0
  IsFirst t = (start ≤ t) × (ns ≤ nanos t) × ((x : ℕ) → start ≤ x → x < t → nanos x < ns)

  bisect-IsFirst :
      (fuel lo hi : ℕ)
      → lo ≤ hi
      → hi - lo < 2 ^ fuel
      → start ≤ lo
      → ns ≤ nanos hi
      → ((x : ℕ) → start ≤ x → x < lo → nanos x < ns)
      → (t : ℕ) × (bisect nanos ns (suc fuel) lo hi ≡ some t) × (t ≤ hi) × IsFirst t
  unfolding bisect
  bisect-IsFirst zero lo hi le small from reached below =
      let met : lo ≡ hi = omega arith in
      (lo, rw (le→ltb lo hi (omega arith)), le, (from, rw met reached, below))
  bisect-IsFirst (suc fuel) lo hi le small from reached below = elim (Bool-cases (ltb lo hi)) [
    | inr same ↦ let met : lo ≡ hi = omega tests in (lo, rw same, le, (from, rw met reached, below))
    | inl less ↦ elim (Bool-cases (ltb (nanos mid) ns)) [
      | inl early ↦
          let (t, e, under, first) =
            bisect-IsFirst fuel (mid + 1) hi (omega tests) (omega (tests, pow-suc 2 fuel))
              (omega arith) reached (skip early) in
          (t, rw (less, early) e, under, first)
      | inr late ↦
          let (t, e, under, first) =
            bisect-IsFirst fuel lo mid (omega tests) (omega (tests, pow-suc 2 fuel)) from
              (omega tests) below in
          (t, rw (less, late) e, omega tests, first)
    ]
  ]
    where
      mid : ℕ
      mid = lo + (hi - lo) / 2

      skip : ltb (nanos mid) ns ≡ true → (x : ℕ) → start ≤ x → x < mid + 1 → nanos x < ns
      skip early x h k = omega (tests, mono x mid (omega arith))

  -- How `widen` may end: at a span that reaches and whose half does not, or past 2 ^ 63.
  abbrev Widened : Reach → Type 0
  Widened (reaches s) =
      (1 ≤ s)
      × (ns ≤ nanos (saturate64 (start + s)))
      × ((s ≡ 1) ⊎ (nanos (saturate64 (start + s / 2)) < ns))
  Widened overflows = nanos (saturate64 (start + 2 ^ 63)) < ns
  Widened stuck = ⊥

  widen-Widened :
      (fuel span : ℕ)
      → 1 ≤ span
      → span < 2 ^ 64
      → 2 ^ 64 ≤ span * 2 ^ fuel
      → (span ≡ 1) ⊎ (nanos (saturate64 (start + span / 2)) < ns)
      → Widened (widen nanos start ns fuel span)
  unfolding widen
  widen-Widened zero span pos small enough before = absurd (omega arith)
  widen-Widened (suc fuel) span pos small enough before =
      elim (Bool-cases (ltb (nanos (saturate64 (start + span))) ns)) [
        | inr there ↦ rw there (pos, omega tests, before)
        | inl short ↦ elim (Bool-cases (ltb (span * 2) (2 ^ 64))) [
          | inl room ↦
              let half : span * 2 / 2 ≡ span = omega arith in
              rw (short, room)
                (widen-Widened fuel (span * 2) (omega arith) (omega tests)
                  (omega (arith, ap (λ (t : ℕ). span * t) (pow-suc 2 fuel)))
                  (inr (rw half (omega tests))))
          | inr full ↦
              rw (short, full)
                (omega (
                  tests,
                  mono (saturate64 (start + 2 ^ 63)) (saturate64 (start + span)) (omega tests),
                ))
        ]
      ]

  after_widening-IsFirst :
      (r : Reach)
      → start < 2 ^ 64
      → ns ≤ nanos (saturate64 (start + 2 ^ 63))
      → Widened r
      → (t : ℕ) × (after_widening nanos start ns r ≡ some t) × IsFirst t
  unfolding after_widening
  after_widening-IsFirst (reaches s) small far (pos, there, before) =
      let lo : ℕ = saturate64 (start + s / 2) in
      let (t, e, _, first) =
        bisect-IsFirst 64 lo (saturate64 (start + s)) (omega arith) (omega arith) (omega arith)
          there below in
      (t, e, first)
    where
      below : (x : ℕ) → start ≤ x → x < saturate64 (start + s / 2) → nanos x < ns
      below x h k = elim before [
        | inl one ↦ absurd (omega arith)
        | inr short ↦ omega (arith, mono x (saturate64 (start + s / 2)) (omega arith))
      ]
  after_widening-IsFirst overflows small far w = absurd (omega arith)
  after_widening-IsFirst stuck small far w = absurd w

-- A measured clock whose readings never go back gives the first tick, from its anchor on, at which
-- at least `ns` nanoseconds have passed, if 2 ^ 63 ticks are enough to see them pass.
pub ticks_from_ns-IsFirst :
    (c : Clock) (q : Quanta) (ns : ℕ)
    → c.source ≡ measured q
    → c.start_ticks < 2 ^ 64
    → ((a b : ℕ) → a ≤ b → q.delta_as_nanos c.start_ticks a ≤ q.delta_as_nanos c.start_ticks b)
    → ns ≤ q.delta_as_nanos c.start_ticks (saturate64 (c.start_ticks + 2 ^ 63))
    → (t : ℕ) × (ticks_from_ns c ns ≡ some t)
      × (c.start_ticks ≤ t)
      × (ns ≤ ns_since_start c t)
      × ((x : ℕ) → c.start_ticks ≤ x → x < t → ns_since_start c x < ns)
unfolding ticks_from_ns ns_since_start ticks_of ns_of
ticks_from_ns-IsFirst c q ns e small mono far =
    let nanos : ℕ → ℕ = q.delta_as_nanos c.start_ticks in
    let widened =
      widen-Widened nanos mono ns c.start_ticks 65 1 (omega arith) (omega arith) (omega arith)
        (inl refl) in
    let (t, found, first) =
      after_widening-IsFirst nanos mono ns c.start_ticks _ small far widened in
    (t, rw e found, first.0, rw e (first.1), λ x h k. rw e (first.2 x h k))
