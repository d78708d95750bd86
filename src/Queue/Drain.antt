-- ===== src/Queue/Drain.antt =====
-- `drain_batches` of crates/core/src/evqueue.rs: the background thread takes batches off the rings, up
-- to a limit. The rings are visited from a start that moves by one at each call.
pub mod Order
pub mod Waiting
use trace.Prelude.{
  ℕ, suc, zero, ◌+◌, ◌-◌, ◌%◌, ◌^◌, Bool, true, false, Option, none, some, List, [], ◌∷◌, ◌++◌, ltb,
  leb, if◌then◌else◌, length, get_elem?, set, add64,
}
use trace.Batch.{EventBatch}
use trace.Spsc.{Spsc}
use trace.Queue.{EventQueue}
use trace.Prelude.{◌==◌}

module _ (R : Spsc EventBatch) where
  open R use {Chan, pop, contents}

  -- `while let Ok(batch) = c.pop() { .. }` of one ring: the batches taken, the ring behind them, and
  -- whether the limit was reached. The fuel bounds the batches in the ring.
  unfoldable pub drain_ring : ℕ → ℕ → ℕ → Chan → List EventBatch × Chan × Bool
  drain_ring zero limit got c = ([], c, false)
  drain_ring (suc fuel) limit got c = elim (pop c) [
    | none ↦ ([], c, false)
    | some (batch, d) ↦
        let (rest, e, full) = drain_ring fuel limit (got + 1) d in
        if leb limit (got + 1) then (batch ∷ [], d, true) else (batch ∷ rest, e, full)
  ]

  -- The visits to the rings `start + i`, for the `i` that are left of `n`; `none` for an index out of
  -- bounds, which none is.
  unfoldable pub visit : ℕ → ℕ → ℕ → ℕ → ℕ → ℕ → List Chan → Option (List EventBatch × List Chan)
  visit zero i start n limit got consumers = some ([], consumers)
  visit (suc left) i start n limit got consumers =
      let index = (start + i) % n in
      elim (get_elem? consumers index) [
        | none ↦ none
        | some c ↦
            let (taken, d, full) = drain_ring (suc (length (contents c))) limit got c in
            let after = set consumers index d in
            let rest = visit left (i + 1) start n limit (got + length taken) after in
            if full
            then some (taken, after)
            else elim rest [ none ↦ none | some (more, final) ↦ some (taken ++ more, final) ]
      ]

  -- What goes to `out`, of which the source returns the number. An empty list of rings leaves the
  -- counter alone.
  unfoldable pub drain_batches : ℕ → EventQueue Chan → Option (List EventBatch × EventQueue Chan)
  drain_batches limit q =
      let n = length q.consumers in
      if n == 0
      then some ([], q)
      else elim (visit n 0 (q.next_consumer % n) n limit 0 q.consumers) [
        | none ↦ none
        | some (taken, consumers) ↦
            some
              (taken, record q { consumers = consumers; next_consumer = add64 q.next_consumer 1 })
      ]
