-- ===== src/Recorder.antt =====
-- crates/core/src/recorder.rs: draining the queue into the ring, the open windows, and the two floors.
-- The messages and the dumps are in Recorder/Control, the loop that waits for messages in Recorder/Loop.
pub mod Floors
pub mod Absorb
pub mod Control
pub mod Kept
pub mod Handle
pub mod Dumps
pub mod Replies
pub mod Ends
pub mod Loop
use trace.Prelude.{ℕ, not, Option, none, some, List, [], ◌∷◌, ◌++◌, map, min, length, retain, ◌==◌}
use trace.Batch.{EventBatch}
use trace.Ring.{Ring, is_protected}
use trace.Ring
use trace.Spsc.{Spsc}
use trace.Queue.{EventQueue}
use trace.Queue.Drain.{drain_batches}

abbrev pub drain_limit : ℕ
drain_limit = 256

pub record Recorder (Chan : Type 0) : Type 0 where
  pub inbound : EventQueue Chan
  pub ring : Ring
  pub windows : List (ℕ × ℕ)

-- `for batch in self.batches.drain(..) { self.ring.push(batch); }`
unfoldable pub push_all : List EventBatch → Ring → Ring
push_all [] ring = ring
push_all (b ∷ batches) ring = push_all batches (Ring.push b ring)

-- `Iterator::min`
unfoldable pub minimum : List ℕ → Option ℕ
minimum [] = none
minimum (n ∷ ns) = elim (minimum ns) [ none ↦ some n | some m ↦ some (min n m) ]

module _ (R : Spsc EventBatch) where
  open R use {Chan}

  -- The count that `absorb` returns, and the recorder behind it.
  unfoldable pub absorb : ℕ → Recorder Chan → Option (ℕ × Recorder Chan)
  absorb limit r = elim (drain_batches R limit r.inbound) [
    | none ↦ none
    | some (batches, queue) ↦
        some (length batches, record r { inbound = queue; ring = push_all batches r.ring })
  ]

abbrev pub lower : ℕ → Option ℕ → ℕ
lower now none = now
lower now (some base) = min now base

module _ {Chan : Type 0} where
  unfoldable pub refloor : Recorder Chan → Recorder Chan
  refloor r = record r { ring = Ring.set_floor (minimum (map (λ w. w.1) r.windows)) r.ring }

  -- The floor that `update_recycle_floor` sets, from the clock's reading and the tails of the threads,
  -- after `absorb_all`.
  unfoldable pub update_recycle_floor : ℕ → List EventBatch → Recorder Chan → Recorder Chan
  update_recycle_floor now tails r =
      let bases = map (λ (b : EventBatch). b.base_ticks) (tails ++ r.ring.batches) in
      let floor : ℕ = lower now (minimum bases) in
      record r { inbound = record r.inbound { recycle_floor = floor } }

  -- `Control::Open`
  unfoldable pub open_window : ℕ → ℕ → Recorder Chan → Recorder Chan
  open_window id start_ticks r =
      refloor (record r { windows = r.windows ++ (id, start_ticks) ∷ [] })

  -- `Control::Cancel`
  unfoldable pub cancel_window : ℕ → Recorder Chan → Recorder Chan
  cancel_window id r = refloor (record r { windows = retain (λ w. not (w.0 == id)) r.windows })
