-- ===== src/Examples/Loop.antt =====
-- The recorder's loop, on a queue that is closed: a window is opened, and everything is dumped at last.
use Prim.Native.String.{String}
use trace.Prelude.{ℕ}
use trace.Examples.Fifo.{fifo}
use trace.Examples.Queue.{queue}
use trace.Examples.Dumps.{sinks, quiet, waiting_two, sinks-Works}
use trace.Recorder.Control.{opened, dump_all}
use trace.Recorder.Loop.{Loop, Turn, returns, start, run}
use trace.Recorder.Kept.{IsLeast}
use trace.Recorder.Loop.Ends.{IsSpare, behind}
use trace.Recorder.Loop.{Turned}
use trace.Recorder.Loop.Floored.{IsKept, run-start-IsKept}
use trace.Recorder.Loop.Closing.{IsQuiet, run-Answered, heard, left}
use trace.Recorder.Loop.Answers.{AllAnswered}
use trace.Prelude.{List, Option, [], arith, none, refl, some, true, ◌<◌, ◌∷◌, ◌≡◌}
use trace.Batch.{EventBatch}

abbrev Channel : Type 0
Channel = ℕ × List EventBatch

abbrev last_turn : Turn Channel
last_turn = record {
  messages = (quiet, opened 2 30) ∷ [];
  floor = quiet;
  grown = λ q. q;
  closing = λ q. record q { closed = true };
  late = (quiet, dump_all 900 "exit" true) ∷ [];
}

abbrev early_turn : Turn Channel
early_turn = record last_turn { closing = λ q. q; late = [] }

last_turn-IsSpare : IsSpare (fifo EventBatch) sinks last_turn
last_turn-IsSpare = record {
  messages = (λ step q empty. omega (arith, empty), tt);
  late = (λ step q empty. omega (arith, empty), tt);
  grown = λ q small. small;
  closing = λ q small. small;
}

early_turn-IsSpare : IsSpare (fifo EventBatch) sinks early_turn
early_turn-IsSpare = record {
  messages = (λ step q empty. omega (arith, empty), tt);
  late = tt;
  grown = λ q small. small;
  closing = λ q small. small;
}

run-start-IsKept_example :
    (end : Turned Channel ℕ) × (run
        (fifo EventBatch)
        sinks
        (early_turn ∷ last_turn ∷ [])
        (start queue 0 1000)
      ≡ some end)
    × IsKept (fifo EventBatch) sinks (behind end)
    × IsLeast (behind end).recorder.ring.floor (behind end).recorder.windows
run-start-IsKept_example =
    run-start-IsKept (fifo EventBatch) sinks (early_turn ∷ last_turn ∷ []) queue 0 1000
      (early_turn-IsSpare, (last_turn-IsSpare, tt)) (omega arith)

abbrev loop : Loop Channel ℕ
loop = record { recorder = waiting_two; ticker = 3; sink = 0; answers = none ∷ [] }

last_turn-IsQuiet : IsQuiet (fifo EventBatch) sinks sinks-Works last_turn
last_turn-IsQuiet = record {
  calm = (λ step q empty. omega (arith, empty), tt);
  calm_late = (λ step q empty. omega (arith, empty), tt);
  grown = λ q. omega arith;
  closing = λ q. omega arith;
  closed = λ q. refl;
}

run-Answered_example :
    (k : ℕ) × (q : Loop Channel ℕ) × (answers : List (Option String)) × (k < 3)
    × (run (fifo EventBatch) sinks (last_turn ∷ last_turn ∷ last_turn ∷ []) loop
        ≡ some (returns true q))
    × (q.answers ≡ none ∷ answers)
    × AllAnswered (heard k (last_turn ∷ last_turn ∷ last_turn ∷ [])) answers
    × (left (fifo EventBatch) sinks sinks-Works q ≡ 0)
run-Answered_example =
    run-Answered (fifo EventBatch) sinks sinks-Works (last_turn ∷ last_turn ∷ last_turn ∷ []) loop
      (last_turn-IsQuiet, (last_turn-IsQuiet, (last_turn-IsQuiet, tt))) (omega arith) (omega arith)
