-- ===== src/Recorder/Loop/Floored.antt =====
-- The floor, the windows and the ticker of crates/core/src/recorder.rs, from turn to turn of its loop.

use trace.Recorder.Loop.{Loop, Turn, Turned, goes_on, returns, Spsc, EventBatch, Sinks, handle_all}
use trace.Prelude.{
  Bool, Bool-cases, List, Option-cases, [], ap, arith, inl, inr, none-ne-some, some, some-injective,
  subst, ◌%◌, ◌++◌, ◌+◌, ◌<◌, ◌==◌, ◌^◌, ◌∷◌, ◌≡◌,
}
use trace.Recorder.Kept.{IsLeast, minimum-IsLeast}
use trace.Recorder.Loop.Ends.{behind, IsSpare, run-some}
use trace.Queue.Drain.Waiting.{waiting}
use trace.Recorder.Absorb.{no_limit}
use trace.Recorder.Kept.{IsFloored, Keeps-IsFloored, absorb_all-Keeps, absorb-Keeps}
use trace.Recorder.Loop.{run, drain_turn, tick, turn, floor_every, Meanwhile, refloor_recycling}
use trace.Recorder.Loop.{Control, handle, close_down, Recorder, absorb, absorb_all, drain_limit}
use trace.Recorder.Handle.{refloor_recycling-Keeps, handle-IsFloored}
use trace.Prelude.{false, ltb, true}
use trace.Prelude.{if◌then◌else◌}
use trace.Recorder.Loop.{close_turn, start, EventQueue}
use trace.Prelude.{refl, ℕ}
use trace.Recorder.{minimum}
use trace.Prelude.{All}
use trace.Prelude.{sym}

module _ (R : Spsc EventBatch) {S E : Type 0} (sinks : Sinks S E) where
  open R use {Chan}

  -- The floor is the least start of the open windows, and the ticker has not come round.
  pub record IsKept (l : Loop Chan S) : Type 0 where
    pub floored : IsFloored R l.recorder
    pub ticking : l.ticker < floor_every

  handle_all-IsKept :
      (messages : List (Meanwhile Chan × Control)) (l : Loop Chan S) (ok : Bool) (q : Loop Chan S)
      → IsKept l
      → handle_all R sinks messages l ≡ some (ok, q)
      → IsKept q
  unfolding handle_all
  handle_all-IsKept [] l ok q h e = subst IsKept (ap (λ t. t.1) (some-injective _ _ e)) h
  handle_all-IsKept ((m, msg) ∷ messages) l ok q h e =
      elim (Option-cases (handle R sinks m msg l.sink l.recorder)) [
        | inl nothing ↦ absurd (none-ne-some (ok, q) (rw (handle_all, nothing) at e))
        | inr ((fine, answer, sink, recorder), found) ↦
            let next : Loop Chan S = record l {
              recorder = recorder;
              sink = sink;
              answers = l.answers ++ answer ∷ [];
            } in
            let k : IsKept next = record {
              floored =
                  handle-IsFloored R sinks m msg l.sink l.recorder (fine, answer, sink, recorder)
                    h.floored found;
              ticking = h.ticking;
            } in
            elim (Bool-cases fine) [
              | inl good ↦
                  handle_all-IsKept messages next ok q k (rw (handle_all, found, good) at e)
              | inr bad ↦
                  subst IsKept
                    (ap (λ t. t.1) (some-injective _ _ (rw (handle_all, found, bad) at e))) k
            ]
      ]

  tick-IsKept :
      (m : Meanwhile Chan) (l q : Loop Chan S) → IsKept l → tick R sinks m l ≡ some q → IsKept q
  unfolding tick
  tick-IsKept m l q h e = elim (Bool-cases (((l.ticker + 1) % 2 ^ 32) == floor_every)) [
    | inl due ↦ elim (Option-cases (refloor_recycling R sinks m l.recorder)) [
      | inl nothing ↦ absurd (none-ne-some q (rw (tick, due, nothing) at e))
      | inr (r, found) ↦ subst IsKept (some-injective _ _ (rw (tick, due, found) at e)) (record {
        floored =
            Keeps-IsFloored R l.recorder r (refloor_recycling-Keeps R sinks m l.recorder r found)
              h.floored;
        ticking = omega arith;
      })
    ]
    | inr early ↦
        subst IsKept (some-injective _ _ (rw (tick, early) at e))
          (record { floored = h.floored; ticking = ground (arith, h.ticking) })
  ]

  close_down-IsKept :
      (t : Turn Chan) (l : Loop Chan S) (end : Turned Chan S)
      → IsKept l
      → close_down R sinks t l ≡ some end
      → IsKept (behind end)
  unfolding close_down
  close_down-IsKept t l end h e = elim (Option-cases (absorb_all R 2 l.recorder)) [
    | inl nothing ↦ absurd (none-ne-some end (rw (close_down, nothing) at e))
    | inr (r, emptied) ↦
        let k : IsKept (record l { recorder = r }) = record {
          floored =
              Keeps-IsFloored R l.recorder r (absorb_all-Keeps R 2 l.recorder r emptied) h.floored;
          ticking = h.ticking;
        } in
        elim (Option-cases (handle_all R sinks t.late (record l { recorder = r }))) [
          | inl nothing ↦ absurd (none-ne-some end (rw (close_down, emptied, nothing) at e))
          | inr ((ok, last), found) ↦
              subst (λ t. IsKept (behind t))
                (some-injective _ _ (rw (close_down, emptied, found) at e))
                (handle_all-IsKept t.late (record l { recorder = r }) ok last k found)
        ]
  ]

  close_turn-IsKept :
      (t : Turn Chan) (l : Loop Chan S) (end : Turned Chan S)
      → IsKept l
      → close_turn R sinks t l ≡ some end
      → IsKept (behind end)
  unfolding close_turn
  close_turn-IsKept t l end h =
      elim l.recorder.inbound.closed
        as (λ b.
          (if b then close_down R sinks t l else some (goes_on l)) ≡ some end
          → IsKept (behind end)) [
            | true ↦ close_down-IsKept t l end h
            | false ↦ λ e. subst (λ t. IsKept (behind t)) (some-injective _ _ e) h
          ]

  drain_turn-IsKept :
      (t : Turn Chan) (l : Loop Chan S) (end : Turned Chan S)
      → IsKept l
      → drain_turn R sinks t l ≡ some end
      → IsKept (behind end)
  unfolding drain_turn
  drain_turn-IsKept t l end h e =
      let grown : Recorder Chan = record l.recorder { inbound = t.grown l.recorder.inbound } in
      elim (Option-cases (absorb R drain_limit grown)) [
        | inl nothing ↦ absurd (none-ne-some end (rw (drain_turn, nothing) at e))
        | inr ((drained, r), found) ↦
            let floored =
              Keeps-IsFloored R grown r (absorb-Keeps R drain_limit grown drained r found)
                h.floored in
            let asked : Recorder Chan = record r { inbound = t.closing r.inbound } in
            let k : IsKept (record l { recorder = asked }) = record {
              floored = floored;
              ticking = h.ticking;
            } in
            elim (Bool-cases (ltb 0 drained)) [
              | inl some_taken ↦
                  subst (λ t. IsKept (behind t))
                    (some-injective _ _ (rw (drain_turn, found, some_taken) at e))
                    (record { floored = floored; ticking = h.ticking })
              | inr none_taken ↦
                  close_turn-IsKept t (record l { recorder = asked }) end k
                    (rw (drain_turn, found, none_taken) at e)
            ]
      ]

  turn-IsKept :
      (t : Turn Chan) (l : Loop Chan S) (end : Turned Chan S)
      → IsKept l
      → turn R sinks t l ≡ some end
      → IsKept (behind end)
  unfolding turn
  turn-IsKept t l end h e = elim (Option-cases (handle_all R sinks t.messages l)) [
    | inl nothing ↦ absurd (none-ne-some end (rw (turn, nothing) at e))
    | inr ((false, q), found) ↦
        subst (λ t. IsKept (behind t)) (some-injective _ _ (rw (turn, found) at e))
          (handle_all-IsKept t.messages l false q h found)
    | inr ((true, q), found) ↦
        let k = handle_all-IsKept t.messages l true q h found in
        elim (Option-cases (tick R sinks t.floor q)) [
          | inl nothing ↦ absurd (none-ne-some end (rw (turn, found, nothing) at e))
          | inr (p, ticked) ↦
              drain_turn-IsKept t p end (tick-IsKept t.floor q p k ticked)
                (rw (turn, found, ticked) at e)
        ]
  ]

  run-IsKept :
      (turns : List (Turn Chan)) (l : Loop Chan S) (end : Turned Chan S)
      → IsKept l
      → run R sinks turns l ≡ some end
      → IsKept (behind end)
  unfolding run
  run-IsKept [] l end h e = subst (λ t. IsKept (behind t)) (some-injective _ _ e) h
  run-IsKept (t ∷ turns) l end h e = elim (Option-cases (turn R sinks t l)) [
    | inl nothing ↦ absurd (none-ne-some end (rw (run, nothing) at e))
    | inr (goes_on next, found) ↦
        run-IsKept turns next end (turn-IsKept t l (goes_on next) h found) (rw (run, found) at e)
    | inr (returns ok last, found) ↦
        subst (λ t. IsKept (behind t)) (some-injective _ _ (rw (run, found) at e))
          (turn-IsKept t l (returns ok last) h found)
  ]

  start-IsKept :
      (inbound : EventQueue Chan) (sink : S) (capacity_bytes : ℕ)
      → IsKept (start inbound sink capacity_bytes)
  unfolding start trace.Ring.new minimum
  start-IsKept inbound sink capacity_bytes = record { floored = refl; ticking = omega arith }

  -- If fewer than `usize::MAX` batches wait at first, and at every step of a turn where fewer did before,
  -- then any turns of the recorder from its start end, and it goes on or has returned, well or with an
  -- error. In each case the floor of the ring is the least start of the open windows, or there is none
  -- where no window is open, and the ticker is below 1024, so that its `u32` never wraps.
  pub run-start-IsKept :
      (turns : List (Turn Chan)) (inbound : EventQueue Chan) (sink : S) (capacity_bytes : ℕ)
      → All (IsSpare R sinks) turns
      → waiting R inbound.consumers < no_limit
      → (end : Turned Chan S) × (run R sinks turns (start inbound sink capacity_bytes) ≡ some end)
        × IsKept (behind end)
        × IsLeast (behind end).recorder.ring.floor (behind end).recorder.windows
  unfolding start
  run-start-IsKept turns inbound sink capacity_bytes spare small =
      let (end, e) = run-some R sinks turns (start inbound sink capacity_bytes) spare small in
      let kept =
        run-IsKept turns (start inbound sink capacity_bytes) end
          (start-IsKept inbound sink capacity_bytes) e in
      let r : Recorder Chan = (behind end).recorder in
      (
        end,
        e,
        kept,
        subst (λ floor. IsLeast floor r.windows) (sym kept.floored) (minimum-IsLeast r.windows),
      )
