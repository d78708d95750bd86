-- ===== src/Examples/Recorder.antt =====
-- A recorder with one window over a ring of two batches, and an exporter that keeps what it is given.
use trace.Prelude.{ℕ, ◌≤◌, true, List, [], ◌∷◌, ◌++◌, All, Bool}
use trace.Event.{Event}
use trace.Batch.{EventBatch}
use trace.Recorder.{Recorder, update_recycle_floor}
use trace.Recorder.Floors.{update_recycle_floor_lem}
use trace.Examples.Ring.{one_event, two_batches}
use trace.Examples.Queue.{queue}

abbrev keep : List Event → List Event → Bool × List Event
keep events out = (true, out ++ events)

abbrev pub recorder : Recorder (ℕ × List EventBatch)
recorder = record { inbound = queue; ring = two_batches; windows = (1, 12) ∷ [] }

update_recycle_floor_lem_example :
    let q = update_recycle_floor 900 (one_event 40 ∷ []) recorder in
    (q.inbound.recycle_floor ≤ 900)
    × All
        (λ (b : EventBatch). q.inbound.recycle_floor ≤ b.base_ticks)
        (one_event 40 ∷ one_event 10 ∷ one_event 20 ∷ [])
update_recycle_floor_lem_example = update_recycle_floor_lem 900 (one_event 40 ∷ []) recorder
