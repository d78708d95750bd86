-- ===== src/Recorder/Loop.antt =====
-- `run_recorder` of crates/core/src/recorder.rs: the loop of the recorder's thread. A turn of the loop is
-- given what the rest of the program does meanwhile.
use Prim.Native.String.{String}
pub mod Ends
pub mod Floored
pub mod Answers
pub mod Closing
use trace.Prelude.{ℕ}
use trace.Ring.{new}
use trace.Prelude.{
  Bool, List, Option, [], false, if◌then◌else◌, ltb, none, some, true, ◌%◌, ◌++◌, ◌+◌, ◌==◌, ◌^◌,
  ◌∷◌,
}
use trace.Recorder.Control.{Meanwhile, Control, Sinks, handle, refloor_recycling}
use trace.Queue.{EventQueue}
use trace.Spsc.{Spsc}
use trace.Recorder.{Recorder, EventBatch, absorb, drain_limit}
use trace.Recorder.Absorb.{absorb_all}

abbrev pub floor_every : ℕ
floor_every = 1024

-- The messages that `try_recv` gives until there is none, each with what goes on while it is handled;
-- what goes on in `update_recycle_floor`; the queue when it is drained, and when it is asked whether it
-- is closed; and the messages that are left where it is.
pub record Turn (Chan : Type 0) : Type 0 where
  pub messages : List (Meanwhile Chan × Control)
  pub floor : Meanwhile Chan
  pub grown : EventQueue Chan → EventQueue Chan
  pub closing : EventQueue Chan → EventQueue Chan
  pub late : List (Meanwhile Chan × Control)

-- `answers` has what went to the senders of the messages, in order.
pub record Loop (Chan S : Type 0) : Type 0 where
  pub recorder : Recorder Chan
  pub ticker : ℕ
  pub sink : S
  pub answers : List (Option String)

-- What becomes of a turn.
pub data Turned (Chan S : Type 0) : Type 0 where
  goes_on : Loop Chan S → Turned Chan S
  returns : Bool → Loop Chan S → Turned Chan S

unfoldable pub start : {Chan S : Type 0} → EventQueue Chan → S → ℕ → Loop Chan S
start inbound sink capacity_bytes = record {
  recorder = record { inbound = inbound; ring = new capacity_bytes; windows = [] };
  ticker = 0;
  sink = sink;
  answers = [];
}

module _ (R : Spsc EventBatch) {S E : Type 0} (sinks : Sinks S E) where
  open R use {Chan}

  -- `while let Ok(msg) = control.try_recv()`, and whether all of it went well.
  unfoldable pub handle_all :
      List (Meanwhile Chan × Control) → Loop Chan S → Option (Bool × Loop Chan S)
  handle_all [] l = some (true, l)
  handle_all ((m, msg) ∷ messages) l = elim (handle R sinks m msg l.sink l.recorder) [
    | none ↦ none
    | some (ok, answer, sink, recorder) ↦
        let next = record l {
          recorder = recorder;
          sink = sink;
          answers = l.answers ++ answer ∷ [];
        } in
        let rest = handle_all messages next in if ok then rest else some (false, next)
  ]

  -- `ticker += 1` of a `u32`, and the recycle floor where it is due.
  unfoldable pub tick : Meanwhile Chan → Loop Chan S → Option (Loop Chan S)
  tick m l =
      let ticker = (l.ticker + 1) % 2 ^ 32 in
      if ticker == floor_every
      then elim (refloor_recycling R sinks m l.recorder) [
        | none ↦ none
        | some recorder ↦ some (record l { ticker = 0; recorder = recorder })
      ]
      else some (record l { ticker = ticker })

  -- Where the queue is closed.
  unfoldable pub close_down : Turn Chan → Loop Chan S → Option (Turned Chan S)
  close_down t l = elim (absorb_all R 2 l.recorder) [
    | none ↦ none
    | some recorder ↦ elim (handle_all t.late (record l { recorder = recorder })) [
      | none ↦ none
      | some (ok, last) ↦ some (returns ok last)
    ]
  ]

  -- `else if recorder.inbound.is_closed()`
  unfoldable pub close_turn : Turn Chan → Loop Chan S → Option (Turned Chan S)
  close_turn t l = if l.recorder.inbound.closed then close_down t l else some (goes_on l)

  -- Behind the messages and the floor.
  unfoldable pub drain_turn : Turn Chan → Loop Chan S → Option (Turned Chan S)
  drain_turn t l =
      elim (absorb R drain_limit (record l.recorder { inbound = t.grown l.recorder.inbound })) [
        | none ↦ none
        | some (drained, recorder) ↦
            let asked = record recorder { inbound = t.closing recorder.inbound } in
            if ltb 0 drained
            then some (goes_on (record l { recorder = recorder }))
            else close_turn t (record l { recorder = asked })
      ]

  unfoldable pub turn : Turn Chan → Loop Chan S → Option (Turned Chan S)
  turn t l = elim (handle_all t.messages l) [
    | none ↦ none
    | some (true, handled) ↦ elim (tick t.floor handled) [
      | none ↦ none
      | some ticked ↦ drain_turn t ticked
    ]
    | some (false, failed) ↦ some (returns false failed)
  ]

  -- The turns, up to the one that returns.
  unfoldable pub run : List (Turn Chan) → Loop Chan S → Option (Turned Chan S)
  run [] l = some (goes_on l)
  run (t ∷ turns) l = elim (turn t l) [
    | none ↦ none
    | some (goes_on next) ↦ run turns next
    | some (returns ok last) ↦ some (returns ok last)
  ]
