-- ===== src/Ring/Evict.antt =====
-- The eviction loop of crates/core/src/ring.rs as a relation.
use trace.Prelude.{◌+◌, ◌*◌, ◌^◌, ◌≤◌, ◌<◌, ◌≡◌, refl, ◌⊎◌, inl, inr, true, false, le→ltb}
use trace.Prelude.{Bool-cases, List, [], ◌∷◌, ◌++◌, arith, ltb, leb, ◌∙◌}
use trace.Prelude.{length, sum_of, saturate64, tests, last_or, lt→ltb, ap, map}
use trace.Batch.{EventBatch, bytes, end_ticks, event_count}
use trace.Ring.{Ring, evict_one, evict_from, evict_over_capacity, is_protected}

-- The byte counter is the sum over the batches, and fits its word.
pub record IsValid (r : Ring) : Type 0 where
  pub counted : r.held ≡ sum_of bytes r.batches
  pub small : r.held < 2 ^ 64

-- What stops the loop: one batch at most, or room, or a protected oldest batch below the hard cap.
abbrev pub StopsAt : List EventBatch → Ring → Type 0
StopsAt [] r = Unit {0}
StopsAt (oldest ∷ rest) r =
    (rest ≡ [])
    ⊎ (r.held ≤ r.capacity)
    ⊎ ((is_protected r.floor oldest ≡ true) × (r.held ≤ saturate64 (r.capacity * 2)))

-- Why a batch may be evicted: the ring is over its capacity and holds another one, and the batch
-- ends before the floor or the ring is over twice its capacity.
abbrev pub MayEvict : EventBatch → List EventBatch → Ring → Type 0
MayEvict oldest rest r =
    (r.capacity < r.held)
    × (0 < length rest)
    × ((is_protected r.floor oldest ≡ false) ⊎ (saturate64 (r.capacity * 2) < r.held))

-- A run of the loop: the rings before and after it, and what it evicted, oldest first.
pub data Evicts : Ring → List EventBatch → Ring → Type 0 where
  stop : (r : Ring) → StopsAt r.batches r → Evicts r [] r
  evict :
      (r q : Ring) (b : EventBatch) (rest out : List EventBatch)
      → r.batches ≡ b ∷ rest
      → MayEvict b rest r
      → Evicts (evict_one b rest r) out q
      → Evicts r (b ∷ out) q

evict_from-Evicts :
    (bs : List EventBatch) (r : Ring)
    → r.batches ≡ bs
    → (out : List EventBatch) × Evicts r out (evict_from bs r)
unfolding evict_from evict_one
evict_from-Evicts [] r e = ([], stop r (rw e tt))
evict_from-Evicts (b ∷ []) r e =
    let only : StopsAt r.batches r = rw e (inl refl) in
    elim (Bool-cases (ltb r.capacity r.held)) [
      | inl over ↦ ([], rw over (stop r only))
      | inr room ↦ ([], rw room (stop r only))
    ]
evict_from-Evicts (b ∷ c ∷ bs) r e =
    let two = lt→ltb 1 (length (b ∷ c ∷ bs)) (omega arith) in
    let (out, run) = evict_from-Evicts (c ∷ bs) (evict_one b (c ∷ bs) r) refl in
    let taken = λ (why : MayEvict b (c ∷ bs) r). evict r _ b (c ∷ bs) out e why run in
    elim (Bool-cases (ltb r.capacity r.held)) [
      | inr room ↦ ([], rw room (stop r (rw e (inr (inl (omega tests))))))
      | inl over ↦ elim (Bool-cases (is_protected r.floor b)) [
        | inr open_to ↦
            (b ∷ out, rw (over, two, open_to) (taken (omega tests, omega arith, inl open_to)))
        | inl kept ↦ elim (Bool-cases (leb r.held (saturate64 (r.capacity * 2)))) [
          | inl below ↦
              ([], rw (over, two, kept, below) (stop r (rw e (inr (inr (kept, omega tests))))))
          | inr above ↦ (
            b ∷ out,
            rw (over, two, kept, above) (taken (omega tests, omega arith, inr (omega tests))),
          )
        ]
      ]
    ]

-- Every call of the loop is such a run.
pub evict_over_capacity-Evicts :
    (r : Ring) → (out : List EventBatch) × Evicts r out (evict_over_capacity r)
unfolding evict_over_capacity
evict_over_capacity-Evicts r = evict_from-Evicts r.batches r refl

evict_one-IsValid :
    (r : Ring) (b : EventBatch) (rest : List EventBatch)
    → r.batches ≡ b ∷ rest
    → IsValid r
    → IsValid (evict_one b rest r)
unfolding evict_one
evict_one-IsValid r b rest e v = let total = ap (sum_of bytes) e in omega (arith, total)

pub Evicts-IsValid : {r q : Ring} {out : List EventBatch} → Evicts r out q → IsValid r → IsValid q
Evicts-IsValid (stop r _) v = v
Evicts-IsValid (evict r q b rest out e _ run) v =
    Evicts-IsValid run (evict_one-IsValid r b rest e v)

pub Evicts-StopsAt : {r q : Ring} {out : List EventBatch} → Evicts r out q → StopsAt q.batches q
Evicts-StopsAt (stop r s) = s
Evicts-StopsAt (evict r q b rest out e _ run) = Evicts-StopsAt run

pub Evicts-split :
    {r q : Ring} {out : List EventBatch} → Evicts r out q → r.batches ≡ out ++ q.batches
unfolding evict_one
Evicts-split (stop r s) = refl
Evicts-split (evict r q b rest out e _ run) = e ∙ ap (◌∷◌ b) (Evicts-split run)

pub Evicts-keeps :
    {r q : Ring} {out : List EventBatch}
    → Evicts r out q
    → (q.capacity ≡ r.capacity) × (q.floor ≡ r.floor)
unfolding evict_one
Evicts-keeps (stop r s) = (refl, refl)
Evicts-keeps (evict r q b rest out e _ run) = Evicts-keeps run

-- The horizon is the end of the last batch evicted, or stays.
pub Evicts-horizon :
    {r q : Ring} {out : List EventBatch}
    → Evicts r out q
    → q.horizon_ticks ≡ last_or r.horizon_ticks (map end_ticks out)
unfolding evict_one
Evicts-horizon (stop r s) = refl
Evicts-horizon (evict r q b rest out e _ run) = Evicts-horizon run

-- The counter grows by the events evicted, in a `u64`.
pub Evicts-counter :
    {r q : Ring} {out : List EventBatch}
    → Evicts r out q
    → r.evicted_events + sum_of event_count out < 2 ^ 64
    → q.evicted_events ≡ r.evicted_events + sum_of event_count out
unfolding evict_one
Evicts-counter (stop r s) h = omega arith
Evicts-counter (evict r q b rest out e _ run) h = omega (arith, Evicts-counter run (omega arith))

pub Evicts-nonempty :
    {r q : Ring} {out : List EventBatch}
    → Evicts r out q
    → 0 < length r.batches
    → 0 < length q.batches
unfolding evict_one
Evicts-nonempty (stop r s) h = h
Evicts-nonempty (evict r q b rest out e may run) h = Evicts-nonempty run (may.1)

-- The first batch evicted met the test of the loop.
pub Evicts-first :
    {r q : Ring} {b : EventBatch} {out : List EventBatch}
    → Evicts r (b ∷ out) q
    → (rest : List EventBatch) × (r.batches ≡ b ∷ rest) × MayEvict b rest r
Evicts-first (evict r q b rest out e may run) = (rest, e, may)

-- The loop does nothing within the capacity, nor at a protected batch within twice the capacity.
pub evict_from_room : (bs : List EventBatch) (r : Ring) → r.held ≤ r.capacity → evict_from bs r ≡ r
unfolding evict_from
evict_from_room [] r h = refl
evict_from_room (b ∷ bs) r h = rw (le→ltb r.capacity r.held h)

pub evict_from_protected :
    (b : EventBatch) (bs : List EventBatch) (r : Ring)
    → is_protected r.floor b ≡ true
    → r.held ≤ saturate64 (r.capacity * 2)
    → evict_from (b ∷ bs) r ≡ r
unfolding evict_from
evict_from_protected b bs r p h = ground arith
