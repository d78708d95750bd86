-- ===== src/Recorder/Kept.antt =====
-- What draining the queue does to the floor and the windows of crates/core/src/recorder.rs.
use trace.Ring
use trace.Recorder.{Recorder, push_all, absorb, minimum, cancel_window, Spsc, EventBatch, refloor}
use trace.Recorder.Absorb.{absorb_all, no_limit}
use trace.Recorder.Floors.{floor-set_floor}
use trace.Prelude.{
  Bool-cases, List, Option-cases, [], add64, ap, inl, inr, length, ltb, map, none-ne-some, refl,
  some, some-injective, subst, suc, sym, zero, ℕ, ◌++◌, ◌∙◌, ◌∷◌, ◌≡◌,
}
use trace.Recorder.{Ring, drain_batches, open_window}
use trace.Ring.Evict.{evict_over_capacity-Evicts, Evicts-keeps}
use trace.Batch.{bytes}
use trace.Prelude.{All, Option, arith, get_elem?, min, none, tests, ◌≤◌}

-- The first start of windows that are open, or that none is.
abbrev pub IsLeast : Option ℕ → List (ℕ × ℕ) → Type 0
IsLeast none windows = windows ≡ []
IsLeast (some start) windows =
    ((i : ℕ) × (id : ℕ) × (get_elem? windows i ≡ some (id, start)))
    × All (λ (w : ℕ × ℕ). start ≤ w.1) windows

All-below :
    (m n : ℕ) (windows : List (ℕ × ℕ))
    → m ≤ n
    → All (λ (w : ℕ × ℕ). n ≤ w.1) windows
    → All (λ (w : ℕ × ℕ). m ≤ w.1) windows
All-below m n [] le h = tt
All-below m n (w ∷ windows) le h = (omega (arith, h.0), All-below m n windows le h.1)

IsLeast-cons :
    (id start : ℕ) (windows : List (ℕ × ℕ)) (later : Option ℕ)
    → minimum (map (λ (w : ℕ × ℕ). w.1) windows) ≡ later
    → IsLeast later windows
    → IsLeast (minimum (map (λ (w : ℕ × ℕ). w.1) ((id, start) ∷ windows))) ((id, start) ∷ windows)
unfolding minimum
IsLeast-cons id start windows none e h = rw (e, h) ((0, id, refl), (omega arith, tt))
IsLeast-cons id start windows (some n) e ((i, id', found), all) = elim (Bool-cases (ltb n start)) [
  | inl before ↦
      let q : min start n ≡ n = omega tests in
      rw e (
        subst (λ m. IsLeast (some m) ((id, start) ∷ windows)) (sym q)
          ((suc i, id', found), (omega tests, all)))
  | inr first ↦
      let q : min start n ≡ start = omega tests in
      rw e (
        subst (λ m. IsLeast (some m) ((id, start) ∷ windows)) (sym q)
          ((0, id, refl), (omega arith, All-below start n windows (omega tests) all)))
]

pub minimum-IsLeast :
    (windows : List (ℕ × ℕ)) → IsLeast (minimum (map (λ (w : ℕ × ℕ). w.1) windows)) windows
unfolding minimum
minimum-IsLeast [] = refl
minimum-IsLeast ((id, start) ∷ windows) =
    IsLeast-cons id start windows _ refl (minimum-IsLeast windows)

module _ (R : Spsc EventBatch) where
  open R use {Chan}

  abbrev pub IsFloored : Recorder Chan → Type 0
  IsFloored r = r.ring.floor ≡ minimum (map (λ w. w.1) r.windows)

  -- Neither the floor nor the windows change.
  abbrev pub Keeps : Recorder Chan → Recorder Chan → Type 0
  Keeps r q = (q.ring.floor ≡ r.ring.floor) × (q.windows ≡ r.windows)

  pub push_all_floor :
      (batches : List EventBatch) (ring : Ring) → (push_all batches ring).floor ≡ ring.floor
  unfolding push_all Ring.push
  push_all_floor [] ring = refl
  push_all_floor (b ∷ batches) ring =
      let (out, run) =
        evict_over_capacity-Evicts
          (record ring { held = add64 ring.held (bytes b); batches = ring.batches ++ b ∷ [] }) in
      push_all_floor batches (Ring.push b ring) ∙ (Evicts-keeps run).1

  pub Keeps-trans : (r q p : Recorder Chan) → Keeps r q → Keeps q p → Keeps r p
  Keeps-trans r q p (a, b) (c, d) = (c ∙ a, d ∙ b)

  pub Keeps-IsFloored : (r q : Recorder Chan) → Keeps r q → IsFloored r → IsFloored q
  Keeps-IsFloored r q (a, b) h = a ∙ h ∙ ap (λ ws. minimum (map (λ w. w.1) ws)) (sym b)

  pub absorb-Keeps :
      (limit : ℕ) (r : Recorder Chan) (drained : ℕ) (q : Recorder Chan)
      → absorb R limit r ≡ some (drained, q)
      → Keeps r q
  unfolding absorb
  absorb-Keeps limit r drained q e = elim (Option-cases (drain_batches R limit r.inbound)) [
    | inl nothing ↦ absurd (none-ne-some (drained, q) (rw (absorb, nothing) at e))
    | inr ((batches, queue), found) ↦
        let p : (length batches, record r { inbound = queue; ring = push_all batches r.ring })
            ≡ (drained, q) =
          some-injective _ _ (rw (absorb, found) at e) in
        subst (Keeps r) (ap (λ t. t.1) p) (push_all_floor batches r.ring, refl)
  ]

  pub absorb_all-Keeps :
      (rounds : ℕ) (r q : Recorder Chan) → absorb_all R rounds r ≡ some q → Keeps r q
  unfolding absorb_all
  absorb_all-Keeps zero r q e = cc
  absorb_all-Keeps (suc rounds) r q e = elim (Option-cases (absorb R no_limit r)) [
    | inl nothing ↦ absurd (none-ne-some q (rw (absorb_all, nothing) at e))
    | inr ((drained, p), found) ↦
        let k = absorb-Keeps no_limit r drained p found in
        elim (Bool-cases (ltb 0 drained)) [
          | inl again ↦
              Keeps-trans r p q k (absorb_all-Keeps rounds p q (rw (absorb_all, found, again) at e))
          | inr stop ↦ subst (Keeps r) (some-injective _ _ (rw (absorb_all, found, stop) at e)) k
        ]
  ]

  -- A floor that is set anew.
  pub cancel_window-IsFloored : (id : ℕ) (r : Recorder Chan) → IsFloored (cancel_window id r)
  unfolding cancel_window refloor
  cancel_window-IsFloored id r = floor-set_floor _ r.ring

  pub open_window-IsFloored :
      (id start : ℕ) (r : Recorder Chan) → IsFloored (open_window id start r)
  unfolding open_window refloor
  open_window-IsFloored id start r = floor-set_floor _ r.ring
