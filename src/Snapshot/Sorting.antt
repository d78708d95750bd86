-- ===== src/Snapshot/Sorting.antt =====
-- The order of a dump of crates/core/src/snapshot.rs.
use mathlib.Core.List.{Perm}
use mathlib.Core.List.Perm
use trace.Prelude.{ℕ, ◌≤◌, List, [], ◌∷◌, ◌++◌, map, All, leb, Bool-cases, le_trans}
use trace.Clock.{Clock, ns_since_start}
use trace.Event.{Event, new}
use trace.Batch.{EventBatch}
use trace.Snapshot.{
  Row, insert, sort_by_ticks, export, assemble, streams_of, fresh_tails, replay_all,
}
use trace.Prelude.{inl, leb→le, inr, tests}

-- Every element is at most each later one, by a measure.
abbrev pub Ascends : {A : Type 0} → (A → ℕ) → List A → Type 0
Ascends f [] = Unit {0}
Ascends f (x ∷ xs) = All (λ y. f x ≤ f y) xs × Ascends f xs

insert-perm : (x : Row) (rows : List Row) → Perm (insert x rows) (x ∷ rows)
unfolding insert
insert-perm x [] = Perm.refl _
insert-perm x (y ∷ rows) = elim (Bool-cases (leb x.0 y.0)) [
  | inl le ↦ rw le (Perm.refl _)
  | inr gt ↦ rw gt (Perm.trans (Perm.cons y (insert-perm x rows)) (Perm.swap x y rows))
]

sort_by_ticks-perm : (rows : List Row) → Perm (sort_by_ticks rows) rows
unfolding sort_by_ticks
sort_by_ticks-perm [] = Perm.refl _
sort_by_ticks-perm (x ∷ rows) =
    Perm.trans (insert-perm x (sort_by_ticks rows)) (Perm.cons x (sort_by_ticks-perm rows))

All-insert :
    (P : Row → Type 0) (x : Row) (rows : List Row) → P x → All P rows → All P (insert x rows)
unfolding insert
All-insert P x [] h k = (h, tt)
All-insert P x (y ∷ rows) h k = elim (Bool-cases (leb x.0 y.0)) [
  | inl le ↦ rw le (h, k)
  | inr gt ↦ rw gt (k.0, All-insert P x rows h k.1)
]

All-le_trans :
    (a b : ℕ) (rows : List Row) → a ≤ b → All (λ y. b ≤ y.0) rows → All (λ y. a ≤ y.0) rows
All-le_trans a b [] h k = tt
All-le_trans a b (y ∷ rows) h k = (le_trans h k.0, All-le_trans a b rows h k.1)

insert-Ascends :
    (x : Row) (rows : List Row) → Ascends (λ r. r.0) rows → Ascends (λ r. r.0) (insert x rows)
unfolding insert
insert-Ascends x [] h = (tt, tt)
insert-Ascends x (y ∷ rows) h = elim (Bool-cases (leb x.0 y.0)) [
  | inl le ↦ rw le ((leb→le x.0 y.0 le, All-le_trans x.0 y.0 rows (leb→le x.0 y.0 le) h.0), h)
  | inr gt ↦ rw gt (All-insert (λ r. y.0 ≤ r.0) x rows (omega tests) h.0, insert-Ascends x rows h.1)
]

sort_by_ticks-Ascends : (rows : List Row) → Ascends (λ r. r.0) (sort_by_ticks rows)
unfolding sort_by_ticks
sort_by_ticks-Ascends [] = tt
sort_by_ticks-Ascends (x ∷ rows) =
    insert-Ascends x (sort_by_ticks rows) (sort_by_ticks-Ascends rows)

sort_by_ticks-All : (P : Row → Type 0) (rows : List Row) → All P rows → All P (sort_by_ticks rows)
unfolding sort_by_ticks
sort_by_ticks-All P [] h = tt
sort_by_ticks-All P (x ∷ rows) h =
    All-insert P x (sort_by_ticks rows) h.0 (sort_by_ticks-All P rows h.1)

-- The clock's reading never goes back up to a last tick.
abbrev pub GoesOn : Clock → ℕ → Type 0
GoesOn clock last = (a b : ℕ) → a ≤ b → b ≤ last → ns_since_start clock a ≤ ns_since_start clock b

All-export :
    (clock : Clock) (last a : ℕ) (rows : List Row)
    → GoesOn clock last
    → All (λ r. r.0 ≤ last) rows
    → All (λ r. a ≤ r.0) rows
    → All (λ (e : Event). ns_since_start clock a ≤ e.ts_ns) (map (export clock) rows)
unfolding export new
All-export clock last a [] mono small h = tt
All-export clock last a (r ∷ rows) mono small h =
    (mono a r.0 h.0 small.0, All-export clock last a rows mono small.1 h.1)

export-Ascends :
    (clock : Clock) (last : ℕ) (rows : List Row)
    → GoesOn clock last
    → All (λ r. r.0 ≤ last) rows
    → Ascends (λ r. r.0) rows
    → Ascends (λ (e : Event). e.ts_ns) (map (export clock) rows)
unfolding export new
export-Ascends clock last [] mono small h = tt
export-Ascends clock last (r ∷ rows) mono small h = (
  All-export clock last r.0 rows mono small.1 h.0,
  export-Ascends clock last rows mono small.1 h.1,
)

-- A dump is made of the rows of all replayed streams, each exported once, and is in order of time,
-- if the clock's reading never goes back up to a tick that is the last of these rows.
pub assemble-Ascends :
    (history tails : List EventBatch) (clock : Clock) (horizon start end_ticks last : ℕ)
    → GoesOn clock last
    → All
        (λ (r : Row). r.0 ≤ last)
        (replay_all horizon start end_ticks (streams_of [] (history ++ fresh_tails history tails)))
    → let out = assemble history tails clock horizon start end_ticks in
      let rows =
        replay_all horizon start end_ticks (streams_of [] (history ++ fresh_tails history tails)) in
      Ascends (λ (e : Event). e.ts_ns) out × Perm out (map (export clock) rows)
unfolding assemble
assemble-Ascends history tails clock horizon start end_ticks last mono small =
    let rows =
      replay_all horizon start end_ticks (streams_of [] (history ++ fresh_tails history tails)) in
    (
      export-Ascends clock last (sort_by_ticks rows) mono (sort_by_ticks-All _ rows small)
          (sort_by_ticks-Ascends rows),
      Perm.map (export clock) (sort_by_ticks-perm rows),
    )
