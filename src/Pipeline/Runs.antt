-- ===== src/Pipeline/Runs.antt =====
-- The runs of the two threads of crates/core/src/pipeline.rs, under every interleaving, while other threads
-- record into the queue.
use trace.Prelude.{ℕ}
use trace.Pipeline.Threads.{returned}
use trace.Pipeline.Threads.{Writer, pops, saw_empty, finishes, ended, failed, Pipe, start, slots}
use trace.Prelude.{Bool, List, [], false, length, true, ◌++◌, ◌≡◌, ◌≤◌, ◌⊎◌}
use trace.Spsc.{Spsc}
use trace.Batch.{EventBatch}
use trace.Event.{Event}
use trace.Queue.{EventQueue}
use trace.Pipeline.{write_each}
use trace.Pipeline.Serializing.{under_way, drawn, Fits}
use trace.Pipeline.Threads.{fanin_batches, serializer_step, writer_step}
use trace.Pipeline.Rings.{IsOpen}

-- What the code is given: the crate's ring buffers, the exporter with its `write_batch` and its
-- `finish`, and the queue.
pub record Setup : Type 1 where
  pub R : Spsc EventBatch
  pub Out : Type 0
  pub write : List Event → Out → Bool × Out
  pub finish : ℕ → Out → Bool × Out
  pub inbound : EventQueue (R.Chan)
  pub before : Out

module _ (S : Setup) where
  open S use {R, Out, write, finish, inbound, before, R.{Chan, contents, capacity}}

  -- The states the threads can reach, with the batches that the serializer has taken off the queue.
  -- The queue's clock is all that the recording threads leave alone.
  pub data Reaches : List EventBatch → Pipe Chan Out → Type 0 where
    begins : Reaches [] (start R inbound before)
    serializes :
        {taken : List EventBatch} {p : Pipe Chan Out}
        → Reaches taken p
        → Reaches (taken ++ drawn R p) (serializer_step R p)
    writes :
        {taken : List EventBatch} {p : Pipe Chan Out}
        → Reaches taken p
        → Reaches taken (writer_step R write finish p)
    records :
        {taken : List EventBatch} {p : Pipe Chan Out} (q : EventQueue Chan)
        → q.clock ≡ inbound.clock
        → Reaches taken p
        → Reaches taken (record p { inbound = q })

  -- The exporter's answer to the batches, one after the other.
  abbrev pub written : List EventBatch → Bool × Out × List EventBatch
  written batches = write_each write inbound.clock batches before

  -- The loop runs: `done` is written, the rest is under way.
  pub record Looping (taken : List EventBatch) (p : Pipe Chan Out) : Type 0 where
    pub done : List EventBatch
    pub all : done ++ under_way R p ≡ taken
    pub so_far : written done ≡ (true, p.out, [])
    pub open_ring : IsOpen p.ring
    pub empty_ring : p.ring.batches ≡ []

  -- The exporter refused a batch, and what came after it was not offered.
  pub record Refused (taken : List EventBatch) (out : Out) : Type 0 where
    pub offered : List EventBatch
    pub later : List EventBatch
    pub all : offered ++ later ≡ taken
    pub refused : (written offered).0 ≡ false
    pub state : (written offered).1 ≡ out

  -- Every batch is written, and `finish` answered `ok`.
  pub record Finished (ok : Bool) (taken : List EventBatch) (p : Pipe Chan Out) : Type 0 where
    pub over : p.serializer ≡ returned
    pub last : Out
    pub dropped : ℕ
    pub all_written : written taken ≡ (true, last, [])
    pub answer : finish dropped last ≡ (ok, p.out)

  abbrev pub Outcome : Writer → List EventBatch → Pipe Chan Out → Type 0
  Outcome pops taken p = Looping taken p
  Outcome saw_empty taken p = Looping taken p
  Outcome finishes taken p = (p.serializer ≡ returned) × (written taken ≡ (true, p.out, []))
  Outcome ended taken p = Finished true taken p
  Outcome failed taken p = Refused taken p.out ⊎ Finished false taken p

  pub record IsSound (taken : List EventBatch) (p : Pipe Chan Out) : Type 0 where
    pub clock : p.inbound.clock ≡ inbound.clock
    pub size : capacity p.full ≡ fanin_batches
    pub within : length (contents p.full) ≤ capacity p.full
    pub fits : Fits p.serializer (slots R p.full)
    pub outcome : Outcome p.writer taken p
