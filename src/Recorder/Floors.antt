-- ===== src/Recorder/Floors.antt =====
-- The two floors that a recorder sets, of crates/core/src/recorder.rs.
use trace.Prelude.{
  suc, zero, subst, some-injective, none-ne-some, sym, ◌∙◌, ℕ, ◌≤◌, ◌≡◌, refl, true, Option, none,
  some, List, [], ◌∷◌, ◌++◌, map, min, All, arith, get_elem?, Option-cases, inl, inr,
}
use trace.Batch.{EventBatch, end_ticks}
use trace.Ring.{Ring, is_protected, set_floor}
use trace.Ring.Evict.{evict_over_capacity-Evicts, Evicts-keeps}
use trace.Recorder.{Recorder, minimum, refloor, update_recycle_floor, lower}

-- The least value of `f` on a list that is not empty.
abbrev least : {A : Type 0} → (A → ℕ) → List A → Option ℕ
least f xs = minimum (map f xs)

least_of : {A : Type 0} (f : A → ℕ) (x : A) (xs : List A) → (m : ℕ) × (least f (x ∷ xs) ≡ some m)
unfolding minimum
least_of f x xs = elim (Option-cases (minimum (map f xs))) [
  | inl nothing ↦ (f x, rw nothing refl)
  | inr (k, found) ↦ (min (f x) k, rw found refl)
]

-- A lower bound of the least value is one of every value.
least-All :
    {A : Type 0} (f : A → ℕ) (xs : List A) (l m : ℕ)
    → least f xs ≡ some m
    → l ≤ m
    → All (λ x. l ≤ f x) xs
unfolding minimum
least-All f [] l m e h = tt
least-All f (x ∷ xs) l m e h = elim (Option-cases (minimum (map f xs))) [
  | inl nothing ↦
      let q : f x ≡ m = some-injective _ _ (rw nothing at e) in (omega arith, none-All xs nothing)
  | inr (k, found) ↦
      let q : min (f x) k ≡ m = some-injective _ _ (rw found at e) in
      (omega arith, least-All f xs l k found (omega arith))
]
  where
    none-All : (ys : List _) → minimum (map f ys) ≡ none → All (λ x. l ≤ f x) ys
    none-All [] e = tt
    none-All (y ∷ ys) e =
        let (m, some_least) = least_of f y ys in absurd (none-ne-some m (sym e ∙ some_least))

All-get_elem? :
    {A : Type 0} (P : A → Type 0) (xs : List A) (i : ℕ) (x : A)
    → All P xs
    → get_elem? xs i ≡ some x
    → P x
All-get_elem? P [] i x h e = cc
All-get_elem? P (y ∷ xs) zero x h e = subst P (some-injective _ _ e) (h.0)
All-get_elem? P (y ∷ xs) (suc i) x h e = All-get_elem? P xs i x (h.1) e

-- `update_recycle_floor` sets a floor that is no later than the clock's reading, and no later than
-- the first tick of any tail and of any batch in the ring.
pub update_recycle_floor_lem :
    {Chan : Type 0} (now : ℕ) (tails : List EventBatch) (r : Recorder Chan)
    → let q = update_recycle_floor now tails r in
      (q.inbound.recycle_floor ≤ now)
      × All (λ (b : EventBatch). q.inbound.recycle_floor ≤ b.base_ticks) (tails ++ r.ring.batches)
unfolding update_recycle_floor
update_recycle_floor_lem now tails r = bounded (tails ++ r.ring.batches) _ refl
  where
    f : EventBatch → ℕ
    f b = b.base_ticks

    bounded :
        (bs : List EventBatch) (o : Option ℕ)
        → minimum (map f bs) ≡ o
        → (lower now o ≤ now) × All (λ b. lower now o ≤ f b) bs
    bounded [] none e = (omega arith, tt)
    bounded (b ∷ bs) none e =
        let (m, found) = least_of f b bs in absurd (none-ne-some m (sym e ∙ found))
    bounded bs (some m) e = (omega arith, least-All f bs (min now m) m e (omega arith))

pub floor-set_floor : (floor : Option ℕ) (ring : Ring) → (set_floor floor ring).floor ≡ floor
unfolding set_floor
floor-set_floor floor ring =
    let (out, run) = evict_over_capacity-Evicts (record ring { floor = floor }) in
    (Evicts-keeps run).1

-- After `refloor` every batch that ends at the start of an open window, or later, is protected.
pub refloor-is_protected :
    {Chan : Type 0} (r : Recorder Chan) (index id start : ℕ) (b : EventBatch)
    → get_elem? r.windows index ≡ some (id, start)
    → start ≤ end_ticks b
    → is_protected (refloor r).ring.floor b ≡ true
unfolding refloor is_protected
refloor-is_protected r index id start b e h = go r.windows e
  where
    go :
        (windows : List (ℕ × ℕ))
        → get_elem? windows index ≡ some (id, start)
        → is_protected (set_floor (minimum (map (λ w. w.1) windows)) r.ring).floor b ≡ true
    go [] e = cc
    go (w ∷ windows) e =
        let f : ℕ × ℕ → ℕ = λ w. w.1 in
        let (m, found) = least_of f w windows in
        let all = least-All f (w ∷ windows) m m found (omega arith) in
        let below : m ≤ start =
          All-get_elem? (λ w. m ≤ f w) (w ∷ windows) index (id, start) all e in
        rw (floor-set_floor (minimum (map f (w ∷ windows))) r.ring)
          (rw found (ground (arith, below)))
