-- ===== src/Recorder/Loop/Closing.antt =====
-- The last turns of the loop of crates/core/src/recorder.rs: the queue is closed and nobody records.
use Prim.Native.String.{String}
use trace.Prelude.{ℕ}
use trace.Recorder.Loop.{Loop, Turn, goes_on, returns, Spsc, Meanwhile, EventBatch, Control}
use trace.Prelude.{
  Bool-cases, List, Option, [], arith, if◌then◌else◌, inl, inr, length, ltb, refl, some, subst, suc,
  sym, true, zero, ◌++◌, ◌<◌, ◌∙◌, ◌∷◌, ◌≡◌, ◌≤◌, ◌⊎◌,
}
use trace.Recorder.Loop.Answers.{AllAnswered, AllCalm, handle_all-Answered}
use trace.Recorder.Loop.Ends.{tick_lem}
use trace.Recorder.Loop.{Sinks, turn, close_turn, EventQueue, drain_turn}
use trace.Recorder.Replies.{Works}
use trace.Recorder.Absorb.{no_limit, absorb_all-Drains}
use trace.Queue.Drain.Waiting.{waiting, waiting-Drains}
use trace.Recorder.Loop.{close_down, absorb, run}
use trace.Recorder.{drain_limit, Recorder, push_all}
use trace.Prelude.{tests}
use trace.Queue.Drain.Order.{drain_batches-Drains}
use trace.Prelude.{All, ap, append_assoc}

-- The messages that are received by the turn `k`, where that one returns.
abbrev pub heard : {Chan : Type 0} → ℕ → List (Turn Chan) → List (Meanwhile Chan × Control)
heard k [] = []
heard zero (t ∷ turns) = t.messages ++ t.late
heard (suc k) (t ∷ turns) = t.messages ++ heard k turns

AllAnswered-append :
    {Chan : Type 0} (messages more : List (Meanwhile Chan × Control))
    (answers last : List (Option String))
    → AllAnswered messages answers
    → AllAnswered more last
    → AllAnswered (messages ++ more) (answers ++ last)
AllAnswered-append [] more [] last h k = k
AllAnswered-append [] more (a ∷ answers) last h k = elim h [ ]
AllAnswered-append (msg ∷ messages) more [] last h k = elim h [ ]
AllAnswered-append (msg ∷ messages) more (a ∷ answers) last (h, hs) k =
    (h, AllAnswered-append messages more answers last hs k)

module _ (R : Spsc EventBatch) {S E : Type 0} (sinks : Sinks S E) (works : Works sinks) where
  open R use {Chan}

  -- The batches that wait for a loop.
  abbrev pub left : Loop Chan S → ℕ
  left l = waiting R l.recorder.inbound.consumers

  -- Nobody records, and the queue is closed when it is asked.
  pub record IsQuiet (t : Turn Chan) : Type 0 where
    pub calm : AllCalm R sinks works t.messages
    pub calm_late : AllCalm R sinks works t.late
    pub grown : (q : EventQueue Chan) → waiting R (t.grown q).consumers ≤ waiting R q.consumers
    pub closing : (q : EventQueue Chan) → waiting R (t.closing q).consumers ≤ waiting R q.consumers
    pub closed : (q : EventQueue Chan) → (t.closing q).closed ≡ true

  -- A turn that goes on leaves fewer batches; one that returns leaves none.
  Next : Turn Chan → Loop Chan S → Type 0
  Next t l =
      ((q : Loop Chan S) × (answers : List (Option String)) × (turn R sinks t l ≡ some (goes_on q))
        × (q.answers ≡ l.answers ++ answers)
        × AllAnswered t.messages answers
        × (left q < left l))
      ⊎ ((q : Loop Chan S) × (answers : List (Option String)) × (turn R sinks t l
            ≡ some (returns true q))
          × (q.answers ≡ l.answers ++ answers)
          × AllAnswered (t.messages ++ t.late) answers
          × (left q ≡ 0))

  close_turn_lem :
      (t : Turn Chan) (l : Loop Chan S)
      → IsQuiet t
      → l.recorder.inbound.closed ≡ true
      → left l < no_limit
      → (q : Loop Chan S) × (answers : List (Option String)) × (close_turn R sinks t l
          ≡ some (returns true q))
        × (q.answers ≡ l.answers ++ answers)
        × AllAnswered t.late answers
        × (left q ≡ 0)
  unfolding close_turn close_down
  close_turn_lem t l quiet closed small =
      let (_, r, absorbed, _, _, _, nothing) = absorb_all-Drains R l.recorder small in
      let (q, answers, done, all, each, less) =
        handle_all-Answered R sinks works t.late (record l { recorder = r }) quiet.calm_late
          (omega (arith, nothing)) in
      (
        q,
        answers,
        subst
            (λ b. (if b then close_down R sinks t l else some (goes_on l)) ≡ some (returns true q))
            (sym closed) (rw (close_down, absorbed, done) refl),
        all,
        each,
        omega (arith, less, nothing),
      )

  turn_lem : (t : Turn Chan) (l : Loop Chan S) → IsQuiet t → left l < no_limit → Next t l
  unfolding Next turn drain_turn absorb
  turn_lem t l quiet small =
      let (h, answers, handled, all, each, less) =
        handle_all-Answered R sinks works t.messages l quiet.calm small in
      let (k, ticked, same, less') = tick_lem R sinks t.floor h (omega (arith, less)) in
      let fewer = quiet.grown k.recorder.inbound in
      let (taken, q, drained, run, _, _, _) =
        drain_batches-Drains R drain_limit (t.grown k.recorder.inbound) (omega arith) in
      let sum = waiting-Drains R run in
      let after : Recorder Chan = record k.recorder {
        inbound = q;
        ring = push_all taken k.recorder.ring;
      } in
      elim (Bool-cases (ltb 0 (length taken))) [
        | inl some_taken ↦ inl (
          record k { recorder = after },
          answers,
          rw (turn, handled, ticked, drain_turn, absorb, drained, some_taken) refl,
          same ∙ all,
          each,
          omega (tests, sum, fewer, less, less', some_taken),
        )
        | inr none_taken ↦
            let asked : Loop Chan S = record k {
              recorder = record after { inbound = t.closing q };
            } in
            let (last, more, closed, all', each', empty) =
              close_turn_lem t asked quiet (quiet.closed q)
                (omega (arith, sum, fewer, less, less', quiet.closing q)) in
            inr (
              last,
              answers ++ more,
              rw (turn, handled, ticked, drain_turn, absorb, drained, none_taken) closed,
              all' ∙ ap (λ xs. xs ++ more) (same ∙ all) ∙ append_assoc l.answers answers more,
              AllAnswered-append t.messages t.late answers more each each',
              empty,
            )
      ]

  -- If files and exporters work, the queue is closed in every turn and nobody records but while a message
  -- is handled, and fewer batches than `usize::MAX` wait then and at first: if there are more turns than
  -- batches wait, then `run_recorder` returns well in one of them. Every message received by then is
  -- answered, a dump that came with a sender by a path and any other by nothing, and no batch is left.
  pub run-Answered :
      (turns : List (Turn Chan)) (l : Loop Chan S)
      → All IsQuiet turns
      → left l < length turns
      → left l < no_limit
      → (k : ℕ) × (q : Loop Chan S) × (answers : List (Option String)) × (k < length turns)
        × (run R sinks turns l ≡ some (returns true q))
        × (q.answers ≡ l.answers ++ answers)
        × AllAnswered (heard k turns) answers
        × (left q ≡ 0)
  unfolding run Next
  run-Answered [] l quiet enough small = absurd (omega arith)
  run-Answered (t ∷ turns) l (quiet, rest) enough small = elim (turn_lem t l quiet small) [
    | inl (next, answers, done, all, each, less) ↦
        let (k, q, more, inside, run_on, all', each', empty) =
          run-Answered turns next rest (omega (arith, less)) (omega (arith, less)) in
        (
          suc k,
          q,
          answers ++ more,
          omega (arith, inside),
          rw (run, done) run_on,
          all' ∙ ap (λ xs. xs ++ more) all ∙ append_assoc l.answers answers more,
          AllAnswered-append t.messages (heard k turns) answers more each each',
          empty,
        )
    | inr (q, answers, done, all, each, empty) ↦
        (0, q, answers, omega arith, rw (run, done) refl, all, each, empty)
  ]
