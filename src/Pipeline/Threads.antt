-- ===== src/Pipeline/Threads.antt =====
-- crates/core/src/pipeline.rs, `run_pipeline`: the serializer thread and the loop of the writer, each
-- a function from one access to what they share to the next. A sleep is a step that changes nothing.
use trace.Prelude.{ℕ}
use trace.Prelude.{
  Bool, List, [], false, if◌then◌else◌, length, none, some, suc, true, u64_max, zero, ◌-◌, ◌==◌,
  ◌∷◌,
}
use trace.Spsc.{Spsc}
use trace.Batch.{EventBatch}
use trace.Queue.{EventQueue}
use trace.Queue.Drain.{drain_batches}
use trace.Ring.{Ring, push, new}
use trace.Event.{Event}
use trace.Pipeline.{drain}

abbrev pub fanin_batches : ℕ
fanin_batches = 256

-- Where the serializer thread stands.
pub data Serializer : Type 0 where
  at_loop : Serializer
  sized : ℕ → Serializer  -- `room` is read
  drained_nothing : Serializer
  hands : List EventBatch → Serializer  -- what is left of `batches`
  returned : Serializer
  panicked : Serializer

-- Where the calling thread stands, which writes.
pub data Writer : Type 0 where
  pops : Writer
  saw_empty : Writer
  finishes : Writer  -- past the loop
  ended : Writer  -- `Ok(())`
  failed : Writer  -- an error

-- `full` is the ring buffer between the threads, `out` the exporter.
pub record Pipe (Chan : Type 0) (Out : Type 0) : Type 0 where
  pub inbound : EventQueue Chan
  pub full : Chan
  pub serializer : Serializer
  pub writer : Writer
  pub ring : Ring
  pub out : Out

-- `is_finished` of the thread's handle.
abbrev pub is_finished : Serializer → Bool
is_finished returned = true
is_finished panicked = true
is_finished _ = false

-- `is_abandoned`: the consumer goes when `run_pipeline` returns.
abbrev pub is_abandoned : Writer → Bool
is_abandoned ended = true
is_abandoned failed = true
is_abandoned _ = false

module _ (R : Spsc EventBatch) where
  open R use {Chan, contents, capacity, pop as receive}

  -- `slots` of the producer.
  abbrev pub slots : Chan → ℕ
  slots c = capacity c - length (contents c)

  -- `while let Ok(batch) = full_rx.pop()`, on fuel that bounds the batches in the channel.
  unfoldable pub gather : ℕ → Chan → Ring → Chan × Ring
  gather zero c ring = (c, ring)
  gather (suc fuel) c ring = elim (receive c) [
    | none ↦ (c, ring)
    | some (batch, d) ↦ gather fuel d (push batch ring)
  ]

module _ (R : Spsc EventBatch) {Out : Type 0} where
  open R use {Chan, create, contents, push as send, pop as receive}

  unfoldable pub start : EventQueue Chan → Out → Pipe Chan Out
  start inbound out = record {
    inbound = inbound;
    full = create fanin_batches;
    serializer = at_loop;
    writer = pops;
    ring = new u64_max;
    out = out;
  }

  unfoldable pub drain_step : ℕ → Pipe Chan Out → Pipe Chan Out
  drain_step room p = elim (drain_batches R room p.inbound) [
    | none ↦ record p { serializer = panicked }
    | some ([], inbound) ↦ record p { serializer = drained_nothing; inbound = inbound }
    | some (b ∷ batches, inbound) ↦ record p { serializer = hands (b ∷ batches); inbound = inbound }
  ]

  unfoldable pub hand_step : EventBatch → List EventBatch → Pipe Chan Out → Pipe Chan Out
  hand_step b batches p = elim (send b p.full) [
    | none ↦ record p { serializer = panicked }
    | some full ↦ record p { serializer = hands batches; full = full }
  ]

  unfoldable pub step_from : Serializer → Pipe Chan Out → Pipe Chan Out
  step_from at_loop p =
      if is_abandoned p.writer
      then record p { serializer = returned }
      else (if slots R p.full == 0 then p else record p { serializer = sized (slots R p.full) })
  step_from (sized room) p = drain_step room p
  step_from drained_nothing p = record p {
    serializer = if p.inbound.closed then returned else at_loop;
  }
  step_from (hands []) p = record p { serializer = at_loop }
  step_from (hands (b ∷ batches)) p = hand_step b batches p
  step_from returned p = p
  step_from panicked p = p

  unfoldable pub serializer_step : Pipe Chan Out → Pipe Chan Out
  unfolding step_from
  serializer_step p = step_from p.serializer p

  module _ (write : List Event → Out → Bool × Out) (finish : ℕ → Out → Bool × Out) where
    -- `writer.drain(&mut ring)?`, and where the code goes on.
    unfoldable pub drain_to : Writer → Ring → Pipe Chan Out → Pipe Chan Out
    drain_to next ring p =
        let (ok, out, rest) = drain write p.inbound.clock ring p.out in
        record p { writer = if ok then next else failed; ring = rest; out = out }

    -- The body of the loop, where `pop` succeeds and where it fails.
    unfoldable pub pop_step : Pipe Chan Out → Pipe Chan Out
    pop_step p = elim (receive p.full) [
      | none ↦ record p { writer = saw_empty }
      | some (batch, full) ↦ drain_to pops (push batch p.ring) (record p { full = full })
    ]

    unfoldable pub empty_step : Pipe Chan Out → Pipe Chan Out
    empty_step p =
        let (full, ring) = gather R (suc (length (contents p.full))) p.full p.ring in
        if is_finished p.serializer
        then drain_to finishes ring (record p { full = full })
        else record p { writer = pops }

    -- `join`, and then `finish`.
    unfoldable pub finish_step : Serializer → Pipe Chan Out → Pipe Chan Out
    finish_step panicked p = record p { writer = failed }
    finish_step _ p =
        let (ok, out) = finish p.inbound.dropped p.out in
        record p { writer = if ok then ended else failed; out = out }

    unfoldable pub write_from : Writer → Pipe Chan Out → Pipe Chan Out
    write_from pops p = pop_step p
    write_from saw_empty p = empty_step p
    write_from finishes p = finish_step p.serializer p
    write_from ended p = p
    write_from failed p = p

    unfoldable pub writer_step : Pipe Chan Out → Pipe Chan Out
    writer_step p = write_from p.writer p
