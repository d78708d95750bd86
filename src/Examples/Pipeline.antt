-- ===== src/Examples/Pipeline.antt =====
-- A pipeline whose queue is closed and holds one batch, with an exporter that keeps the events.
use trace.Prelude.{ℕ}
use trace.Examples.Fifo.{fifo}
use trace.Examples.Queue.{queue}
use trace.Examples.Ring.{one_event}
use trace.Pipeline.Threads.{Pipe, start, serializer_step, writer_step, step_from, ended}
use trace.Pipeline.Runs.{Setup, begins, serializes, writes, IsSound, Finished}
use trace.Pipeline.Serializing.{drawn}
use trace.Prelude.{All, List, [], arith, refl, true, ◌++◌, ◌∷◌}
use trace.Pipeline.Ends.{IsSteady, rounds}
use trace.Pipeline.Rings.{IsLight}
use trace.Queue.{EventQueue}
use trace.Batch.{EventBatch, bytes}
use trace.Event.{Event}
use trace.Pipeline.Written.{reaches-IsSound}
use trace.Prelude.{subst, sym, ◌≡◌, ◌≤◌}
use trace.Pipeline.Progress.{weight, work, place, writer_place}
use trace.Pipeline.Threads.{drain_step}
use trace.Queue.Drain.{drain_batches, visit, drain_ring}
use trace.Pipeline.Complete.{Works, rounds-written}
use trace.Pipeline.Emptying.{AllLight}
use trace.Queue.Drain.Order.{Drains}
use trace.Queue.Drain.Waiting.{waiting}

abbrev closed_queue : EventQueue (ℕ × List EventBatch)
closed_queue = record queue { consumers = (64, one_event 10 ∷ []) ∷ []; closed = true }

abbrev setup : Setup
setup = record {
  R = fifo EventBatch;
  Out = List Event;
  write = λ events out. (true, out ++ events);
  finish = λ dropped out. (true, out);
  inbound = closed_queue;
  before = [];
}

abbrev Channel : Type 0
Channel = ℕ × List EventBatch

abbrev step : Pipe Channel (List Event) → Pipe Channel (List Event)
step p = serializer_step (fifo EventBatch) p

abbrev first : Pipe Channel (List Event)
first = start (fifo EventBatch) closed_queue []

abbrev second : Pipe Channel (List Event)
second = step first

abbrev third : Pipe Channel (List Event)
third = step second

abbrev fourth : Pipe Channel (List Event)
fourth = step third

abbrev taken : List EventBatch
taken =
    (([] ++ drawn (fifo EventBatch) first) ++ drawn (fifo EventBatch) second)
    ++ drawn (fifo EventBatch) third

taken_lem : taken ≡ one_event 10 ∷ []
unfolding drawn start serializer_step step_from drain_step drain_batches visit drain_ring
taken_lem = refl

taken-IsLight : All IsLight taken
unfolding bytes
taken-IsLight = subst (All IsLight) (sym taken_lem) (omega arith, tt)

reaches-IsSound_example :
    IsSound setup taken (writer_step (fifo EventBatch) setup.write setup.finish fourth)
reaches-IsSound_example =
    reaches-IsSound setup taken (writer_step (fifo EventBatch) setup.write setup.finish fourth)
      (writes (serializes (serializes (serializes begins)))) taken-IsLight

first-IsSteady : IsSteady setup first
unfolding start
first-IsSteady = record { closed = refl; size = omega arith; within = omega arith; fits = tt }

first-weight : weight (fifo EventBatch) first ≤ 20
unfolding weight work start place writer_place
first-weight = omega arith

setup-Works : Works setup
setup-Works = record { writes = λ events out. refl; finishes = λ dropped out. refl }

light : AllLight (fifo EventBatch) closed_queue.consumers
unfolding bytes
light = ((omega arith, tt), tt)

rounds-written_example :
    (taken : List EventBatch) × ((rounds setup 20 first).writer ≡ ended)
    × Drains
        (fifo EventBatch)
        closed_queue.consumers
        taken
        (rounds setup 20 first).inbound.consumers
    × (waiting (fifo EventBatch) (rounds setup 20 first).inbound.consumers ≡ 0)
    × Finished setup true taken (rounds setup 20 first)
rounds-written_example = rounds-written setup 20 setup-Works refl light first-weight
