-- ===== src/Examples/Snapshot.antt =====
-- A thread that calls twice before a window, and returns three times in it.
use mathlib.Core.List.{Perm}
use trace.Prelude.{ℕ, ◌≤◌, ◌≡◌, some, List, [], ◌∷◌, ◌++◌, map, arith, All}
use trace.Clock.{ns_since_start}
use trace.Event.{Event, begin, finish, pack_code_kind, opens_slice, kind_of}
use trace.Batch.{EventBatch}
use trace.Snapshot.{Stamp, Row, replay, replay_all, streams_of, fresh_tails, assemble, export}
use trace.Snapshot.Replay.{nest, nest-replay, replay_split}
use trace.Snapshot.Frames.{left_open, shown_rows}
use trace.Snapshot.{Stamp}
use trace.Snapshot.Streams.{streams_of_lem, stream_of, stamps_of, IsApart}
use trace.Snapshot.Sorting.{assemble-Ascends, Ascends, GoesOn}
use trace.Examples.Clock.{slow}
use trace.Snapshot.{extend, opens}

abbrev call : ℕ → ℕ → Stamp
call ticks code_id = (ticks, pack_code_kind code_id begin)

abbrev return : ℕ → ℕ → Stamp
return ticks code_id = (ticks, pack_code_kind code_id finish)

abbrev calls : List Stamp
calls = call 10 1 ∷ call 20 2 ∷ []

abbrev returns : List Stamp
returns = return 30 2 ∷ return 40 1 ∷ return 50 0 ∷ []

nest-replay_example : (n : ℕ) × (nest 0 (replay 4 5 25 60 (calls ++ returns)) ≡ some n)
nest-replay_example = nest-replay 4 5 25 60 (calls ++ returns) (ground arith)

replay_split_example :
    replay 4 5 25 60 (calls ++ (returns ++ (call 70 3 ∷ [])))
    ≡ map (λ (x : Stamp). (x.0, 4, x.1)) (left_open calls) ++ shown_rows 4 5 calls returns
replay_split_example =
    replay_split 4 5 25 60 calls returns (call 70 3 ∷ []) (ground arith) (ground arith)
      (ground arith)

abbrev batch : ℕ → EventBatch
batch base = record {
  base_ticks = base;
  tid = 4;
  events = record { delta_ticks = 0; code_kind = pack_code_kind 7 begin } ∷ [];
  capacity = 1024;
}

abbrev batches : List EventBatch
batches = batch 510 ∷ batch 520 ∷ []

streams_of_lem_example :
    IsApart (streams_of [] batches)
    × ((tid : ℕ) → stream_of tid (streams_of [] batches) ≡ stamps_of tid batches)
streams_of_lem_example = streams_of_lem batches

slow-GoesOn : GoesOn slow 1000
unfolding ns_since_start
slow-GoesOn a b h small = omega arith

abbrev rows : List Row
rows = replay_all 500 505 600 (streams_of [] (batches ++ fresh_tails batches []))

rows_small : All (λ (r : Row). r.0 ≤ 1000) rows
unfolding replay_all replay streams_of extend fresh_tails opens opens_slice kind_of pack_code_kind
rows_small = (omega arith, (omega arith, tt))

assemble-Ascends_example :
    Ascends (λ (e : Event). e.ts_ns) (assemble batches [] slow 500 505 600)
    × Perm (assemble batches [] slow 500 505 600) (map (export slow) rows)
assemble-Ascends_example = assemble-Ascends batches [] slow 500 505 600 1000 slow-GoesOn rows_small
