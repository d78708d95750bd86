-- ===== src/Monitoring/Refused.antt =====
-- When `resolve` of crates/py/src/monitoring.rs gives no id: the interner has none left.
use trace.Prelude.{ℕ}
use trace.Codecache.{CodeCache}
use trace.Tls.{Hot}
use trace.Intern.{Interner, lookup, insert}
use trace.Intern.Live.{IsValid}
use trace.Intern.Fresh.{insert-IsValid, Answer}
use trace.Monitoring.{
  Moment, State, resolve, resolve_cold, find_id, interned, cached, enter_run, enter_generation,
}
use trace.Prelude.{
  All, Bool-cases, Option, Option-cases, inl, inr, length, none, none-ne-some, some, subst, sym,
  ◌&&◌, ◌==◌, ◌∙◌, ◌≡◌, ◌≤◌,
}
use trace.Monitoring.{CodeInfo}

-- The key has no id, all ids are out, and every free one was freed at the floor or later.
pub record IsFull (key floor : ℕ) (i : Interner) : Type 0 where
  pub unknown : lookup key i ≡ none
  pub out : length i.info ≡ i.capacity
  pub kept : All (λ (f : ℕ × ℕ). floor ≤ f.1) i.free

insert-IsFull :
    (key : ℕ) (info : CodeInfo) (floor : ℕ) (i : Interner)
    → IsValid i
    → (insert key info floor i).0 ≡ none
    → IsFull key floor i × ((insert key info floor i).1 ≡ i)
insert-IsFull key info floor i v e =
    let (_, _, _, why) = insert-IsValid i key info floor v in
    elim why [
      | inl (id, _, found, _) ↦ absurd (none-ne-some id (sym e ∙ found))
      | inr (unknown, answer) ↦
          let (same, out, kept) =
            subst (λ r. Answer i info floor r (insert key info floor i).1) e answer in
          (record { unknown = unknown; out = out; kept = kept }, same)
    ]

find_id-IsFull :
    (key : ℕ) (info : CodeInfo) (floor : ℕ) (codes : CodeCache) (i : Interner) (o : Option ℕ)
    → IsValid i
    → (find_id o key info floor codes i).0 ≡ none
    → IsFull key floor i × ((find_id o key info floor codes i).2 ≡ i)
unfolding find_id interned cached
find_id-IsFull key info floor codes i (some id) v e = absurd (none-ne-some id (sym e))
find_id-IsFull key info floor codes i none v e = elim (Option-cases (lookup key i)) [
  | inr (id, f) ↦ absurd (none-ne-some id (sym (rw f at e)))
  | inl unknown ↦ rw unknown (insert-IsFull key info floor i v (rw unknown at e))
]

module _ {Chan : Type 0} where
  -- A call that gets no id changes nothing of the interner, which has none to give.
  pub resolve-IsFull :
      (m : Moment) (s : State Chan) (h : Hot) (codes : CodeCache)
      → IsValid s.interner
      → (resolve m s h codes).0 ≡ none
      → IsFull m.key s.queue.recycle_floor s.interner
        × ((resolve m s h codes).3.interner ≡ s.interner)
  unfolding resolve resolve_cold
  resolve-IsFull m s h codes v e =
      let (hot1, codes1) = enter_run s.run h codes in
      let (hot2, codes2) = enter_generation m.generation hot1 codes1 in
      elim (Bool-cases
        (h.last_code_key == m.key && h.queue_id == s.run && h.code_gen == m.generation)) [
          | inl fast ↦ absurd (none-ne-some h.last_code_id (sym (rw fast at e)))
          | inr slow ↦ rw slow (
              find_id-IsFull m.key m.info s.queue.recycle_floor codes2 s.interner _ v
                (rw slow at e))
        ]
