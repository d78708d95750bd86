-- ===== src/Recorder/Control.antt =====
-- The messages of crates/core/src/recorder.rs, and what `handle` does with them: windows open and close,
-- and the history is written out in chunks.
use Prim.Native.String.{String}
use trace.Recorder.{Recorder, absorb, open_window, cancel_window, Spsc, EventBatch}
use trace.Recorder.Absorb.{absorb_all, no_limit}
use trace.Prelude.{
  Bool, List, Option, [], drop, false, if◌then◌else◌, length, none, some, suc, take, true, zero, ℕ,
  ◌+◌, ◌∷◌,
}
use trace.Event.{Event}
use trace.Snapshot.{assemble}
use trace.Recorder.{EventQueue, update_recycle_floor}

abbrev pub write_chunk : ℕ
write_chunk = 4096

-- Whether there is a sender to reply to is `replies`.
pub data Control : Type 0 where
  opened : ℕ → ℕ → Control
  cancelled : ℕ → Control
  dump_window : ℕ → ℕ → ℕ → String → Bool → Control
  dump_all : ℕ → String → Bool → Control

-- `DumpSink` and the exporters that it opens. A failure leaves the state behind it.
pub record Sinks (S E : Type 0) : Type 0 where
  pub create : String → S → Option (String × E) × S
  pub write_batch : List Event → E → Bool × E
  pub finish : ℕ → E → Bool × E

-- What the rest of the program does in between: the tails that its threads give, and what they have
-- recorded by the time of a step, of which the first is the second `absorb_all` of a dump.
pub record Meanwhile (Chan : Type 0) : Type 0 where
  pub tails : List EventBatch
  pub records : ℕ → EventQueue Chan → EventQueue Chan
  pub now : ℕ
  pub later_tails : List EventBatch

-- `events.chunks(size)`, the first chunk filled up to a size. An exact multiple has no empty chunk.
unfoldable pub chunks_from : {A : Type 0} → ℕ → ℕ → List A → List (List A)
chunks_from zero size xs = []
chunks_from (suc fuel) size [] = []
chunks_from (suc fuel) size (x ∷ xs) =
    take size (x ∷ xs) ∷ chunks_from fuel size (drop size (x ∷ xs))

unfoldable pub chunks : {A : Type 0} → ℕ → List A → List (List A)
chunks size xs = chunks_from (length xs) size xs

module _ (R : Spsc EventBatch) {S E : Type 0} (sinks : Sinks S E) where
  open R use {Chan}
  open sinks use {create, write_batch, finish}

  -- The windows but one, and the floor that they need.
  abbrev pub without : Option ℕ → Recorder Chan → Recorder Chan
  without none r = r
  without (some id) r = cancel_window id r

  -- Both calls of `absorb_all` at the start of a dump.
  unfoldable pub settled : Meanwhile Chan → Recorder Chan → Option (Recorder Chan)
  settled m r = elim (absorb_all R 2 r) [
    | none ↦ none
    | some first ↦ absorb_all R 2 (record first { inbound = m.records 0 first.inbound })
  ]

  -- The loop of `dump`: whether every chunk was written, and the exporter and the recorder behind it.
  unfoldable pub write_chunks :
      Meanwhile Chan → ℕ → List (List Event) → E → Recorder Chan → Option (Bool × E × Recorder Chan)
  write_chunks m step [] e r = some (true, e, r)
  write_chunks m step (chunk ∷ more) e r =
      let (ok, after) = write_batch chunk e in
      if ok
      then elim (absorb R no_limit (record r { inbound = m.records step r.inbound })) [
        | none ↦ none
        | some (drained, q) ↦ write_chunks m (step + 1) more after q
      ]
      else some (false, after, r)

  -- `finish`, unless a chunk failed.
  unfoldable pub finished : String → Bool × E × Recorder Chan → Option (String × E) × Recorder Chan
  finished path (true, e, r) =
      let (ok, after) = finish r.inbound.dropped e in (if ok then some (path, after) else none, r)
  finished path (false, e, r) = (none, r)

  -- What is left of a dump once the history is in the ring.
  unfoldable pub dump_events :
      Meanwhile Chan
      → ℕ
      → ℕ
      → String
      → S
      → Recorder Chan
      → Option (Option (String × E) × S × Recorder Chan)
  unfolding write_chunks finished
  dump_events m start_ticks end_ticks reason s r =
      let events =
        assemble r.ring.batches m.tails r.inbound.clock r.ring.horizon_ticks start_ticks
          end_ticks in
      let (made, t) = create reason s in
      elim made [
        | none ↦ some (none, t, r)
        | some (path, e) ↦ elim (write_chunks m 1 (chunks write_chunk events) e r) [
          | none ↦ none
          | some end ↦ let (result, q) = finished path end in some (result, t, q)
        ]
      ]

  -- `dump`: the path and the exporter that has written it, or `none` for an error; and `none` of all
  -- that if a loop ran longer than its rounds.
  unfoldable pub dump :
      Meanwhile Chan
      → ℕ
      → ℕ
      → String
      → S
      → Recorder Chan
      → Option (Option (String × E) × S × Recorder Chan)
  unfolding dump_events settled
  dump m start_ticks end_ticks reason s r = elim (settled m r) [
    | none ↦ none
    | some q ↦ dump_events m start_ticks end_ticks reason s q
  ]

  -- `update_recycle_floor`, with the clock's reading, the tails, and what is in the queue by then.
  unfoldable pub refloor_recycling : Meanwhile Chan → Recorder Chan → Option (Recorder Chan)
  refloor_recycling m r = elim (absorb_all R 2 r) [
    | none ↦ none
    | some q ↦ some (update_recycle_floor m.now m.later_tails q)
  ]

  -- What follows a dump that went well: its window is closed, the floors are set, and the path goes to
  -- whoever waits for it.
  unfoldable pub closed_window :
      Meanwhile Chan
      → Option ℕ
      → Bool
      → Option (String × E) × S × Recorder Chan
      → Option (Bool × Option String × S × Recorder Chan)
  unfolding refloor_recycling
  closed_window m id replies (none, s, r) = some (false, none, s, r)
  closed_window m id replies (some (path, e), s, r) = elim (refloor_recycling m (without id r)) [
    | none ↦ none
    | some q ↦ some (true, (if replies then some path else none), s, q)
  ]

  -- `handle`: whether it succeeds, the reply, and the state behind it.
  unfoldable pub handle :
      Meanwhile Chan
      → Control
      → S
      → Recorder Chan
      → Option (Bool × Option String × S × Recorder Chan)
  unfolding closed_window
  handle m (opened id start_ticks) s r = some (true, none, s, open_window id start_ticks r)
  handle m (cancelled id) s r = some (true, none, s, cancel_window id r)
  handle m (dump_window id start_ticks end_ticks reason replies) s r =
      elim (dump m start_ticks end_ticks reason s r) [
        | none ↦ none
        | some end ↦ closed_window m (some id) replies end
      ]
  handle m (dump_all end_ticks reason replies) s r = elim (dump m 0 end_ticks reason s r) [
    | none ↦ none
    | some end ↦ closed_window m none replies end
  ]
