-- ===== src/Pipeline.antt =====
-- crates/core/src/pipeline.rs, `Writer::drain`: the batches of the ring go to the exporter.
-- The threads and their loops are in Pipeline/Threads.
pub mod Threads
pub mod Rings
pub mod Serializing
pub mod Runs
pub mod Order
pub mod Written
pub mod Progress
pub mod Ends
pub mod Complete
pub mod Emptying
use trace.Prelude.{ℕ, ◌≡◌, refl, none, some, List, [], ◌∷◌, length, suc, zero, Bool}
use trace.Clock.{Clock}
use trace.Event.{Event}
use trace.Batch.{EventBatch, decode_into}
use trace.Ring.{Ring, pop}
use trace.Ring.Push.{pop_cons, pop_nil}
use trace.Prelude.{true, ◌<◌, arith, Bool-cases, if◌then◌else◌, inl, false, inr}

-- The exporter is a state and its `write_batch`, which may fail: then the state is that of the failure
-- and the rest of the ring stays. A ring gives no more batches than it holds, which is the fuel.
module _ {Out : Type 0} (write : List Event → Out → Bool × Out) (clock : Clock) where
  unfoldable pub drain_from : ℕ → Ring → Out → Bool × Out × Ring
  drain_from zero ring out = (true, out, ring)
  drain_from (suc fuel) ring out = elim (pop ring) [
    | none ↦ (true, out, ring)
    | some (batch, rest) ↦
        let (ok, after) = write (decode_into clock batch) out in
        let later = drain_from fuel rest after in if ok then later else (false, after, rest)
  ]

  unfoldable pub drain : Ring → Out → Bool × Out × Ring
  drain ring out = drain_from (suc (length ring.batches)) ring out

  -- The batches written one after the other, up to the first failure, with the batches left.
  unfoldable pub write_each : List EventBatch → Out → Bool × Out × List EventBatch
  write_each [] out = (true, out, [])
  write_each (b ∷ batches) out =
      let (ok, after) = write (decode_into clock b) out in
      let later = write_each batches after in if ok then later else (false, after, batches)

  drain_from_lem :
      (fuel : ℕ) (ring : Ring) (out : Out) (batches : List EventBatch)
      → ring.batches ≡ batches
      → length batches < fuel
      → let (ok, after, rest) = drain_from fuel ring out in
        let (ok', after', left) = write_each batches out in
        (ok ≡ ok') × (after ≡ after') × (rest.batches ≡ left)
  unfolding drain_from write_each
  drain_from_lem zero ring out batches e h = absurd (omega arith)
  drain_from_lem (suc fuel) ring out [] e h = rw (drain_from, pop_nil ring e) (refl, refl, e)
  drain_from_lem (suc fuel) ring out (b ∷ batches) e h =
      elim (Bool-cases ((write (decode_into clock b) out).0)) [
        | inl ok ↦
            rw (drain_from, write_each, pop_cons ring b batches e, ok)
              (drain_from_lem fuel _ ((write (decode_into clock b) out).1) batches refl
                (omega arith))
        | inr failed ↦
            rw (drain_from, write_each, pop_cons ring b batches e, failed) (refl, refl, refl)
      ]

  -- `drain` decodes and writes every batch of the ring, oldest first, and leaves an empty ring; or it
  -- stops at the first batch that fails to be written, and leaves those behind it.
  pub drain-write_each :
      (ring : Ring) (out : Out)
      → let (ok, after, rest) = drain ring out in
        let (ok', after', left) = write_each ring.batches out in
        (ok ≡ ok') × (after ≡ after') × (rest.batches ≡ left)
  unfolding drain
  drain-write_each ring out =
      drain_from_lem (suc (length ring.batches)) ring out ring.batches refl (omega arith)
