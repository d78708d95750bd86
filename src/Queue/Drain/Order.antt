-- ===== src/Queue/Drain/Order.antt =====
-- What `drain_batches` of crates/core/src/evqueue.rs takes, and what it leaves.
use trace.Prelude.{
  ◌==◌, get_elem?-lt, ℕ, suc, zero, ◌+◌, ◌≤◌, ◌<◌, ◌≡◌, refl, true, false, some, List, [], ◌∷◌,
  ◌++◌, length, get_elem?, set, arith, tests,
}
use trace.Prelude.{Bool-cases, leb, inl, inr, sym, ap, ◌≢◌, ◌%◌, ℕ_discrete, some-injective, dec_le}
use native.Mathlib.Nat.{mod-lt, mod-eq_of_lt, add-mod_right}
use trace.Batch.{EventBatch}
use trace.Spsc.{Spsc}
use trace.Queue.Drain.{drain_ring, visit, drain_batches, EventQueue}
use trace.Prelude.{◌∙◌, get_elem?-set_self, get_elem?-set_ne, get_elem?-some, subst, ◌-◌, add64}
use trace.Prelude.{append-nil, length-set, length-append}

module _ (R : Spsc EventBatch) where
  open R use {Chan, pop, contents, pop_cons, pop_nil}

  -- From rings to rings by taking batches off the front of one ring after the other.
  pub data Drains : List Chan → List EventBatch → List Chan → Type 0 where
    over : {cs : List Chan} → Drains cs [] cs
    front :
        {cs ds : List Chan} {more : List EventBatch} (index : ℕ) (c d : Chan)
        (taken : List EventBatch)
        → get_elem? cs index ≡ some c
        → contents c ≡ taken ++ contents d
        → Drains (set cs index d) more ds
        → Drains cs (taken ++ more) ds

  drain_ring_lem :
      (fuel limit got : ℕ) (c : Chan) (inside : List EventBatch)
      → contents c ≡ inside
      → length inside < fuel
      → got < limit
      → let (taken, d, full) = drain_ring R fuel limit got c in
        (contents c ≡ taken ++ contents d)
        × (got + length taken ≤ limit)
        × (full ≡ false → (contents d ≡ []) × (got + length taken < limit))
        × (full ≡ true → got + length taken ≡ limit)
  unfolding drain_ring
  drain_ring_lem zero limit got c inside e small room = absurd (omega arith)
  drain_ring_lem (suc fuel) limit got c [] e small room =
      rw (drain_ring, pop_nil c e) (refl, omega arith, λ h. (e, omega arith), λ h. cc)
  drain_ring_lem (suc fuel) limit got c (b ∷ inside) e small room =
      let (d, popped, after, _) = pop_cons b inside c e in
      elim (Bool-cases (leb limit (got + 1))) [
        | inl full ↦
            rw (drain_ring, popped, full)
              (e ∙ ap (◌∷◌ b) (sym after), omega tests, λ h. cc, λ h. omega tests)
        | inr more ↦
            let (all, bound, empty, reached) =
              drain_ring_lem fuel limit (got + 1) d inside after (omega arith) (omega tests) in
            rw (drain_ring, popped, more)
              (
                e ∙ ap (◌∷◌ b) (sym after ∙ all),
                omega (arith, bound),
                λ h. (let (nothing, less) = empty h in (nothing, omega (arith, less))),
                λ h. omega (arith, reached h),
              )
      ]

  length-Drains :
      {cs ds : List Chan} {taken : List EventBatch} → Drains cs taken ds → length ds ≡ length cs
  length-Drains over = refl
  length-Drains (front {cs} index c d taken found all run) =
      length-Drains run ∙ length-set cs index d

  -- The ring at an index is empty.
  abbrev pub Cleared : List Chan → ℕ → Type 0
  Cleared cs index = (c : Chan) → get_elem? cs index ≡ some c → contents c ≡ []

  Cleared-set :
      (cs : List Chan) (index at : ℕ) (d : Chan)
      → index < length cs
      → contents d ≡ []
      → (at ≢ index → Cleared cs at)
      → Cleared (set cs index d) at
  Cleared-set cs index at d h e before c found = elim (ℕ_discrete at index) [
    | yes same ↦
        let q : d ≡ c =
          some-injective _ _ (sym (get_elem?-set_self cs index d h) ∙ rw same at found) in
        rw (sym q) e
    | no apart ↦ before apart c (sym (get_elem?-set_ne cs index at d (λ q. apart (sym q))) ∙ found)
  ]

  visit_lem :
      (left i start n limit got : ℕ) (cs : List Chan)
      → left + i ≡ n
      → 0 < n
      → length cs ≡ n
      → got < limit
      → ((j : ℕ) → j < i → Cleared cs ((start + j) % n))
      → (taken : List EventBatch) × (ds : List Chan) × (visit R left i start n limit got cs
          ≡ some (taken, ds))
        × Drains cs taken ds
        × (got + length taken ≤ limit)
        × (got + length taken < limit → (j : ℕ) → j < n → Cleared ds ((start + j) % n))
  unfolding visit
  visit_lem zero i start n limit got cs e pos size room before =
      ([], cs, refl, over, omega arith, λ h j less. before j (omega arith))
  visit_lem (suc left) i start n limit got cs e pos size room before =
      let index : ℕ = (start + i) % n in
      let inside : index < length cs = rw size (mod-lt (start + i) pos) in
      let (c, found) = get_elem?-some cs index inside in
      let (all, bound, emptied, reached) =
        drain_ring_lem (suc (length (contents c))) limit got c (contents c) refl (omega arith)
          room in
      let (taken, d, full) = drain_ring R (suc (length (contents c))) limit got c in
      elim (Bool-cases full) [
        | inl stop ↦ (
          taken,
          set cs index d,
          rw (visit, found, stop) refl,
          subst (λ ts. Drains cs ts (set cs index d)) (append-nil taken)
              (front index c d taken found all over),
          bound,
          λ h. absurd (omega (arith, reached stop)),
        )
        | inr on ↦
            let (empty, less) = emptied on in
            let (more, ds, e', run, bound', rest) =
              visit_lem left (i + 1) start n limit (got + length taken) (set cs index d)
                (omega arith) pos (length-set cs index d ∙ size) less
                (λ j h. Cleared-set cs index ((start + j) % n) d inside empty (λ ne.
                  elim (ℕ_discrete j i) [
                    | yes same ↦ absurd (ne (ap (λ (k : ℕ). (start + k) % n) same))
                    | no apart ↦ before j (omega arith)
                  ])) in
            (
              taken ++ more,
              ds,
              rw (visit, found, on, e') refl,
              front index c d taken found all run,
              omega (arith, length-append taken more, bound'),
              λ h. rest (omega (arith, length-append taken more)),
            )
      ]

  -- The `j`-th index from a start, modulo the number of rings.
  wraps :
      (start index n : ℕ) → start < n → index < n → (j : ℕ) × (j < n) × ((start + j) % n ≡ index)
  wraps start index n h k = elim (dec_le start index) [
    | yes le ↦
        let e : start + (index - start) ≡ index = omega arith in
        (index - start, omega arith, rw e (mod-eq_of_lt k))
    | no lt ↦
        let e : start + (index + n - start) ≡ index + n = omega arith in
        (index + n - start, omega arith, rw e (add-mod_right index n ∙ mod-eq_of_lt k))
  ]

  -- A drain with a limit of one at least succeeds. It takes the batches, and no more than the limit,
  -- off the front of the rings, one ring after the other and in their order, and leaves the rest; and
  -- if it takes fewer than the limit, then every ring is empty. Nothing but the rings and the counter
  -- of the next start changes.
  pub drain_batches-Drains :
      (limit : ℕ) (q : EventQueue Chan)
      → 0 < limit
      → (taken : List EventBatch) × (r : EventQueue Chan) × (drain_batches R limit q
          ≡ some (taken, r))
        × Drains q.consumers taken r.consumers
        × (length taken ≤ limit)
        × (length taken < limit → (index : ℕ) → Cleared r.consumers index)
        × (r ≡ record q { consumers = r.consumers; next_consumer = r.next_consumer })
  unfolding drain_batches
  drain_batches-Drains limit q room = elim (Bool-cases (length q.consumers == 0)) [
    | inl none_yet ↦ (
      [],
      q,
      rw none_yet refl,
      over,
      omega arith,
      λ h index c e. absurd (ground (arith, get_elem?-lt q.consumers index e)),
      refl,
    )
    | inr some_rings ↦
        let n : ℕ = length q.consumers in
        let pos : 0 < n = ground arith in
        let (taken, ds, e, run, bound, cleared) =
          visit_lem n 0 (q.next_consumer % n) n limit 0 q.consumers (omega arith) pos refl room
            (λ j h. absurd (omega arith)) in
        (
          taken,
          record q { consumers = ds; next_consumer = add64 q.next_consumer 1 },
          rw (some_rings, e) refl,
          run,
          omega (arith, bound),
          λ h index c found.
              let less = get_elem?-lt ds index found in
              let (j, under, there) =
                wraps (q.next_consumer % n) index n (mod-lt q.next_consumer pos)
                  (omega (arith, length-Drains run)) in
              rw there at (cleared (omega arith) j under) c found,
          refl,
        )
  ]
