-- ===== src/Ring/Push.antt =====
-- `push`, `pop` and `set_floor`: a queue that forgets its oldest batches.
use trace.Prelude.{ℕ, ◌+◌, ◌*◌, ◌^◌, ◌≤◌, ◌<◌, ◌≡◌, refl, some, none, List, [], ◌∷◌, ◌++◌, arith}
use trace.Batch.{EventBatch, bytes, end_ticks, event_count}
use trace.Ring.{Ring, new, pop, push, set_floor, evict_over_capacity, is_protected, pop_front}
use trace.Ring.Evict.{IsValid, StopsAt, evict_over_capacity-Evicts, Evicts-IsValid}
use trace.Prelude.{add64, length, ◌-◌, sum_of, ◌⊎◌, sum_of-append, last_or, map, length-append, sym}
use trace.Ring.Evict.{Evicts-StopsAt, Evicts-split, Evicts-nonempty, evict_from_room, Evicts-keeps}
use trace.Prelude.{inl, ap, ◌∙◌, last_or_append_cons, inr, last_or-append, sub64}
use trace.Ring.{evict_from}
use trace.Ring.Evict.{evict_from_protected, Evicts-horizon, Evicts-counter}

-- The ring that `push` hands to the eviction.
abbrev arrived : EventBatch → Ring → Ring
arrived b r = record r { held = add64 r.held (bytes b); batches = r.batches ++ b ∷ [] }

-- The same, where the sum fits.
abbrev held_exactly : EventBatch → Ring → Ring
held_exactly b r = record r { held = r.held + bytes b; batches = r.batches ++ b ∷ [] }

last_of_split :
    (old out kept : List EventBatch) (b : EventBatch)
    → old ++ b ∷ [] ≡ out ++ kept
    → 0 < length kept
    → last_or b kept ≡ b
last_of_split old out [] b e h = absurd (omega arith)
last_of_split old out (c ∷ kept) b e h =
    sym (last_or_append_cons b c out kept) ∙ ap (last_or b) (sym e) ∙ last_or-append b b old

arrived-IsValid :
    (b : EventBatch) (r : Ring) → IsValid r → r.held + bytes b < 2 ^ 64 → IsValid (arrived b r)
arrived-IsValid b r v h = omega (arith, sum_of-append bytes r.batches (b ∷ []))

new-IsValid : (capacity : ℕ) → IsValid (new capacity)
unfolding new
new-IsValid capacity = omega arith

-- A push keeps the byte counter exact, if the bytes held fit a `usize`, and afterwards the ring is
-- within its capacity, holds a single batch, or holds a protected oldest batch within twice the
-- capacity.
pub push-IsValid :
    (b : EventBatch) (r : Ring)
    → IsValid r
    → r.held + bytes b < 2 ^ 64
    → IsValid (push b r) × StopsAt (push b r).batches (push b r)
unfolding push
push-IsValid b r v h =
    let (out, run) = evict_over_capacity-Evicts (arrived b r) in
    (Evicts-IsValid run (arrived-IsValid b r v h), Evicts-StopsAt run)

-- A push takes some batches `out` off the front of the old ones followed by the new one, and never
-- the last of these. The horizon becomes the end of the last batch taken, or stays where none is,
-- and the counter grows by the events taken, if it fits a `u64`.
pub push_forgets_oldest :
    (b : EventBatch) (r : Ring)
    → r.evicted_events + sum_of event_count (r.batches ++ b ∷ []) < 2 ^ 64
    → (out : List EventBatch) × (r.batches ++ b ∷ [] ≡ out ++ (push b r).batches)
      × (last_or b (push b r).batches ≡ b)
      × (0 < length (push b r).batches)
      × ((push b r).horizon_ticks ≡ last_or r.horizon_ticks (map end_ticks out))
      × ((push b r).evicted_events ≡ r.evicted_events + sum_of event_count out)
unfolding push
push_forgets_oldest b r h =
    let (out, run) = evict_over_capacity-Evicts (arrived b r) in
    let kept = (evict_over_capacity (arrived b r)).batches in
    let split : r.batches ++ b ∷ [] ≡ out ++ kept = Evicts-split run in
    let some_left : 0 < length kept =
      Evicts-nonempty run (omega (arith, length-append r.batches (b ∷ []))) in
    let total = ap (sum_of event_count) split ∙ sum_of-append event_count out kept in
    (
      out,
      split,
      last_of_split r.batches out kept b split some_left,
      some_left,
      Evicts-horizon run,
      Evicts-counter run (omega (arith, total)),
    )

-- A protected oldest batch keeps everything, up to twice the capacity: nothing is evicted, and the
-- horizon and the counter stay.
pub push_protected :
    (b oldest : EventBatch) (rest : List EventBatch) (r : Ring) (floor : ℕ)
    → r.batches ++ b ∷ [] ≡ oldest ∷ rest
    → r.floor ≡ some floor
    → floor ≤ end_ticks oldest
    → r.held + bytes b < 2 ^ 64
    → r.held + bytes b ≤ r.capacity * 2
    → push b r ≡ record r { held = r.held + bytes b; batches = r.batches ++ b ∷ [] }
unfolding push evict_over_capacity is_protected
push_protected b oldest rest r floor e f h fits under =
    let exact : add64 r.held (bytes b) ≡ r.held + bytes b = omega arith in
    rw exact (
      ap (λ bs. evict_from bs (held_exactly b r)) e
      ∙ evict_from_protected oldest rest (held_exactly b r) (rw f (ground arith)) (omega arith))

-- A ring as large as memory evicts nothing.
pub push_unbounded :
    (b : EventBatch) (r : Ring)
    → r.capacity ≡ 2 ^ 64 - 1
    → r.held + bytes b < 2 ^ 64
    → push b r ≡ record r { held = r.held + bytes b; batches = r.batches ++ b ∷ [] }
unfolding push evict_over_capacity
push_unbounded b r c fits =
    let exact : add64 r.held (bytes b) ≡ r.held + bytes b = omega arith in
    rw exact (evict_from_room _ (held_exactly b r) (omega arith))

-- Clearing the floor leaves a single batch at most, or no more bytes than the capacity.
pub set_floor-none :
    (r : Ring)
    → IsValid r
    → IsValid (set_floor none r)
      × ((length (set_floor none r).batches ≤ 1) ⊎ ((set_floor none r).held ≤ r.capacity))
unfolding set_floor is_protected
set_floor-none r v =
    let bare : Ring = record r { floor = none } in
    let (out, run) = evict_over_capacity-Evicts bare in
    let q = evict_over_capacity bare in
    let (same_capacity, same_floor) = Evicts-keeps run in
    (
      Evicts-IsValid run (record { counted = v.counted; small = v.small }),
      unprotected q.batches q same_capacity same_floor (Evicts-StopsAt run),
    )
  where
    unprotected :
        (bs : List EventBatch) (q : Ring)
        → q.capacity ≡ r.capacity
        → q.floor ≡ none
        → StopsAt bs q
        → (length bs ≤ 1) ⊎ (q.held ≤ r.capacity)
    unprotected [] q c f s = inl (omega arith)
    unprotected (b ∷ bs) q c f s = ground arith

-- `pop` takes the oldest batch and its bytes, and leaves the horizon and the counter; it fails on
-- the empty ring only.
pub pop-IsValid :
    (r : Ring)
    → IsValid r
    → ((r.batches ≡ []) × (pop r ≡ none))
      ⊎ ((b : EventBatch) × (q : Ring) × (pop r ≡ some (b, q))
          × (r.batches ≡ b ∷ q.batches)
          × (q.horizon_ticks ≡ r.horizon_ticks)
          × (q.evicted_events ≡ r.evicted_events)
          × IsValid q)
unfolding pop pop_front
pop-IsValid r v = go r.batches refl
  where
    go :
        (bs : List EventBatch)
        → r.batches ≡ bs
        → ((r.batches ≡ []) × (pop_front bs r ≡ none))
          ⊎ ((b : EventBatch) × (q : Ring) × (pop_front bs r ≡ some (b, q))
              × (r.batches ≡ b ∷ q.batches)
              × (q.horizon_ticks ≡ r.horizon_ticks)
              × (q.evicted_events ≡ r.evicted_events)
              × IsValid q)
    go [] e = inl (e, refl)
    go (b ∷ rest) e =
        let total = ap (sum_of bytes) e in
        inr (
          b,
          record r { batches = rest; held = sub64 r.held (bytes b) },
          refl,
          e,
          refl,
          refl,
          omega (arith, total),
        )

pub pop_cons :
    (r : Ring) (b : EventBatch) (rest : List EventBatch)
    → r.batches ≡ b ∷ rest
    → pop r ≡ some (b, record r { batches = rest; held = sub64 r.held (bytes b) })
unfolding pop pop_front
pop_cons r b rest e = rw (pop, e)

pub pop_nil : (r : Ring) → r.batches ≡ [] → pop r ≡ none
unfolding pop pop_front
pop_nil r e = rw (pop, e)
