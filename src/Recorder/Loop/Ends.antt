-- ===== src/Recorder/Loop/Ends.antt =====
-- `run_recorder` of crates/core/src/recorder.rs ends each of its turns, whatever files and exporters do.
use trace.Prelude.{ℕ}
use trace.Spsc.{Spsc}
use trace.Batch.{EventBatch}
use trace.Queue.{EventQueue}
use trace.Queue.Drain.Order.{drain_batches-Drains}
use trace.Queue.Drain.Waiting.{waiting, waiting-Drains}
use trace.Recorder.{Recorder, absorb, drain_limit, push_all}
use trace.Recorder.Absorb.{no_limit, absorb_all-Drains}
use trace.Recorder.Control.{Control, Meanwhile, Sinks}
use trace.Recorder.Ends.{Spares, handle-some, refloor_recycling-some}
use trace.Recorder.Loop.{
  Loop, Turn, Turned, goes_on, returns, handle_all, tick, floor_every, close_down, close_turn,
  drain_turn, turn, run,
}
use trace.Prelude.{
  All, Bool, Bool-cases, List, [], arith, false, if◌then◌else◌, inl, inr, length, ltb, refl, some,
  true, ◌%◌, ◌++◌, ◌+◌, ◌<◌, ◌==◌, ◌^◌, ◌∷◌, ◌≡◌, ◌≤◌,
}

-- The state behind a turn.
abbrev pub behind : {Chan S : Type 0} → Turned Chan S → Loop Chan S
behind (goes_on l) = l
behind (returns ok l) = l

module _ (R : Spsc EventBatch) {S E : Type 0} (sinks : Sinks S E) where
  open R use {Chan}

  -- The batches that wait for a loop.
  abbrev pub left : Loop Chan S → ℕ
  left l = waiting R l.recorder.inbound.consumers

  abbrev pub AllSpare : List (Meanwhile Chan × Control) → Type 0
  AllSpare messages = All (λ (p : Meanwhile Chan × Control). Spares R sinks p.0) messages

  -- In a turn, fewer than `usize::MAX` batches wait at every step, if fewer did before.
  pub record IsSpare (t : Turn Chan) : Type 0 where
    pub messages : AllSpare t.messages
    pub late : AllSpare t.late
    pub grown :
        (q : EventQueue Chan)
        → waiting R q.consumers < no_limit
        → waiting R (t.grown q).consumers < no_limit
    pub closing :
        (q : EventQueue Chan)
        → waiting R q.consumers < no_limit
        → waiting R (t.closing q).consumers < no_limit

  handle_all-some :
      (messages : List (Meanwhile Chan × Control)) (l : Loop Chan S)
      → AllSpare messages
      → left l < no_limit
      → (ok : Bool) × (q : Loop Chan S) × (handle_all R sinks messages l ≡ some (ok, q))
        × (left q ≤ left l)
  unfolding handle_all
  handle_all-some [] l spare small = (true, l, refl, omega arith)
  handle_all-some ((m, msg) ∷ messages) l spare small =
      let (fine, answer, t, r, done, less) =
        handle-some R sinks m msg l.sink l.recorder spare.0 small in
      let next : Loop Chan S = record l {
        recorder = r;
        sink = t;
        answers = l.answers ++ answer ∷ [];
      } in
      let (ok, q, rest, less') = handle_all-some messages next spare.1 (omega (arith, less)) in
      elim (Bool-cases fine) [
        | inl good ↦ (ok, q, rw (handle_all, done, good) rest, omega (arith, less, less'))
        | inr bad ↦ (false, next, rw (handle_all, done, bad) refl, omega (arith, less))
      ]

  pub tick_lem :
      (m : Meanwhile Chan) (l : Loop Chan S)
      → left l < no_limit
      → (q : Loop Chan S) × (tick R sinks m l ≡ some q)
        × (q.answers ≡ l.answers)
        × (left q ≤ left l)
  unfolding tick
  tick_lem m l small =
      let (p, floored, nothing) = refloor_recycling-some R sinks m l.recorder small in
      elim (Bool-cases (((l.ticker + 1) % 2 ^ 32) == floor_every)) [
        | inl due ↦ (
          record l { ticker = 0; recorder = p },
          rw (tick, due, floored) refl,
          refl,
          omega (arith, nothing),
        )
        | inr early ↦ (
          record l { ticker = (l.ticker + 1) % 2 ^ 32 },
          rw (tick, early) refl,
          refl,
          omega arith,
        )
      ]

  close_turn-some :
      (t : Turn Chan) (l : Loop Chan S)
      → IsSpare t
      → left l < no_limit
      → (end : Turned Chan S) × (close_turn R sinks t l ≡ some end) × (left (behind end) < no_limit)
  unfolding close_turn close_down
  close_turn-some t l spare small =
      let (_, r, absorbed, _, _, _, nothing) = absorb_all-Drains R l.recorder small in
      let (ok, q, done, less) =
        handle_all-some t.late (record l { recorder = r }) spare.late (omega (arith, nothing)) in
      let down : close_down R sinks t l ≡ some (returns ok q) =
        rw (close_down, absorbed, done) refl in
      elim l.recorder.inbound.closed
        as (λ b.
          (end : Turned Chan S) × ((if b then close_down R sinks t l else some (goes_on l))
            ≡ some end)
          × (left (behind end) < no_limit)) [
            | true ↦ (returns ok q, down, omega (arith, less, nothing))
            | false ↦ (goes_on l, refl, small)
          ]

  drain_turn-some :
      (t : Turn Chan) (l : Loop Chan S)
      → IsSpare t
      → left l < no_limit
      → (end : Turned Chan S) × (drain_turn R sinks t l ≡ some end) × (left (behind end) < no_limit)
  unfolding drain_turn absorb
  drain_turn-some t l spare small =
      let grown : EventQueue Chan = t.grown l.recorder.inbound in
      let few = spare.grown l.recorder.inbound small in
      let (taken, q, drained, run, _, _, _) =
        drain_batches-Drains R drain_limit grown (omega arith) in
      let sum = waiting-Drains R run in
      let after : Recorder Chan = record l.recorder {
        inbound = q;
        ring = push_all taken l.recorder.ring;
      } in
      let asked : Loop Chan S = record l { recorder = record after { inbound = t.closing q } } in
      let (end, closed, last) =
        close_turn-some t asked spare (spare.closing q (omega (arith, sum, few))) in
      elim (Bool-cases (ltb 0 (length taken))) [
        | inl some_taken ↦ (
          goes_on (record l { recorder = after }),
          rw (drain_turn, absorb, drained, some_taken) refl,
          omega (arith, sum, few),
        )
        | inr none_taken ↦ (end, rw (drain_turn, absorb, drained, none_taken) closed, last)
      ]

  turn-some :
      (t : Turn Chan) (l : Loop Chan S)
      → IsSpare t
      → left l < no_limit
      → (end : Turned Chan S) × (turn R sinks t l ≡ some end) × (left (behind end) < no_limit)
  unfolding turn
  turn-some t l spare small =
      let (ok, h, handled, less) = handle_all-some t.messages l spare.messages small in
      let (k, ticked, _, less') = tick_lem t.floor h (omega (arith, less)) in
      let (end, drained, last) = drain_turn-some t k spare (omega (arith, less, less')) in
      elim (Bool-cases ok) [
        | inl good ↦ (end, rw (turn, handled, good, ticked) drained, last)
        | inr bad ↦ (returns false h, rw (turn, handled, bad) refl, omega (arith, less))
      ]

  run-next :
      (t : Turn Chan) (turns : List (Turn Chan)) (l : Loop Chan S) (end : Turned Chan S)
      → turn R sinks t l ≡ some end
      → left (behind end) < no_limit
      → ((q : Loop Chan S)
          → left q < no_limit
          → (last : Turned Chan S) × (run R sinks turns q ≡ some last))
      → (last : Turned Chan S) × (run R sinks (t ∷ turns) l ≡ some last)
  unfolding run
  run-next t turns l (goes_on q) done few rest =
      let (last, e) = rest q few in (last, rw (run, done) e)
  run-next t turns l (returns ok q) done few rest = (returns ok q, rw (run, done) refl)

  -- Any turns end, if fewer than `usize::MAX` batches wait at first and in each of them.
  pub run-some :
      (turns : List (Turn Chan)) (l : Loop Chan S)
      → All IsSpare turns
      → left l < no_limit
      → (end : Turned Chan S) × (run R sinks turns l ≡ some end)
  unfolding run
  run-some [] l spare small = (goes_on l, refl)
  run-some (t ∷ turns) l spare small =
      let (end, done, few) = turn-some t l spare.0 small in
      run-next t turns l end done few (λ q less. run-some turns q spare.1 less)
