-- ===== src/Recorder/Loop/Answers.antt =====
-- What the loop of crates/core/src/recorder.rs answers, once the queue is closed.
use Prim.Native.String.{String}
use trace.Prelude.{ℕ}
use trace.Recorder.Control.{Control, opened, cancelled, dump_window, dump_all, Meanwhile, Sinks}
use trace.Recorder.Loop.{Loop, Spsc, EventBatch, Recorder}
use trace.Prelude.{All, Bool, List, Option, [], false, none, some, true, ◌<◌, ◌∷◌, ◌≡◌, ◌≤◌}
use trace.Recorder.Replies.{Works, IsCalm, dump-some}
use trace.Recorder.Ends.{without_inbound, refloor_recycling-some}
use trace.Recorder.Absorb.{no_limit}
use trace.Queue.Drain.Waiting.{waiting}
use trace.Recorder.Control.{handle, closed_window, without}
use trace.Prelude.{ap, append-nil, append_assoc, arith, if◌then◌else◌, refl, sym, ◌++◌, ◌∙◌}
use trace.Recorder.Loop.{handle_all}
use trace.Recorder.{open_window, cancel_window, refloor, EventQueue}

abbrev pub Replied : Bool → Option String → Type 0
Replied true answer = (path : String) × (answer ≡ some path)
Replied false answer = answer ≡ none

-- The answer that a message is owed: a path where a sender came with a dump.
abbrev pub Answered : Control → Option String → Type 0
Answered (opened id start_ticks) answer = answer ≡ none
Answered (cancelled id) answer = answer ≡ none
Answered (dump_window id start_ticks end_ticks reason replies) answer = Replied replies answer
Answered (dump_all end_ticks reason replies) answer = Replied replies answer

abbrev pub AllAnswered :
    {Chan : Type 0} → List (Meanwhile Chan × Control) → List (Option String) → Type 0
AllAnswered [] [] = Unit {0}
AllAnswered ((m, msg) ∷ messages) (answer ∷ answers) =
    Answered msg answer × AllAnswered messages answers
AllAnswered _ _ = ⊥

module _ (R : Spsc EventBatch) {S E : Type 0} (sinks : Sinks S E) (works : Works sinks) where
  open R use {Chan}

  -- A message with a calm meanwhile.
  abbrev pub AllCalm : List (Meanwhile Chan × Control) → Type 0
  AllCalm messages = All (λ (p : Meanwhile Chan × Control). IsCalm R sinks works p.0) messages

  closed_window-true :
      (m : Meanwhile Chan) (id : Option ℕ) (replies : Bool) (path : String) (e : E) (s : S)
      (r : Recorder Chan)
      → waiting R r.inbound.consumers ≡ 0
      → (q : Recorder Chan) × (closed_window R sinks m id replies (some (path, e), s, r)
          ≡ some (true, (if replies then some path else none), s, q))
        × (waiting R q.inbound.consumers ≡ 0)
  unfolding closed_window
  closed_window-true m id replies path e s r empty =
      let same =
        ap (λ (q : EventQueue Chan). waiting R q.consumers) (without_inbound R sinks id r) in
      let (p, floored, nothing) =
        refloor_recycling-some R sinks m (without R sinks id r) (omega (arith, same, empty)) in
      (p, rw (closed_window, floored) refl, nothing)

  reply-Replied :
      (replies : Bool) (path : String) → Replied replies (if replies then some path else none)
  reply-Replied true path = (path, refl)
  reply-Replied false path = refl

  handle-Answered :
      (m : Meanwhile Chan) (msg : Control) (s : S) (r : Recorder Chan)
      → IsCalm R sinks works m
      → waiting R r.inbound.consumers < no_limit
      → (answer : Option String) × (t : S) × (q : Recorder Chan) × (handle R sinks m msg s r
          ≡ some (true, answer, t, q))
        × Answered msg answer
        × (waiting R q.inbound.consumers ≤ waiting R r.inbound.consumers)
  unfolding handle open_window cancel_window refloor
  handle-Answered m (opened id start_ticks) s r calm small =
      (none, s, open_window id start_ticks r, refl, refl, omega arith)
  handle-Answered m (cancelled id) s r calm small =
      (none, s, cancel_window id r, refl, refl, omega arith)
  handle-Answered m (dump_window id start_ticks end_ticks reason replies) s r calm small =
      let (path, e, t, q, run, empty) =
        dump-some R sinks works m start_ticks end_ticks reason s r calm small in
      let (p, done, nothing) = closed_window-true m (some id) replies path e t q empty in
      (_, t, p, rw (handle, run) done, reply-Replied replies path, omega (arith, nothing))
  handle-Answered m (dump_all end_ticks reason replies) s r calm small =
      let (path, e, t, q, run, empty) =
        dump-some R sinks works m 0 end_ticks reason s r calm small in
      let (p, done, nothing) = closed_window-true m none replies path e t q empty in
      (_, t, p, rw (handle, run) done, reply-Replied replies path, omega (arith, nothing))

  pub handle_all-Answered :
      (messages : List (Meanwhile Chan × Control)) (l : Loop Chan S)
      → AllCalm messages
      → waiting R l.recorder.inbound.consumers < no_limit
      → (q : Loop Chan S) × (answers : List (Option String)) × (handle_all R sinks messages l
          ≡ some (true, q))
        × (q.answers ≡ l.answers ++ answers)
        × AllAnswered messages answers
        × (waiting R q.recorder.inbound.consumers ≤ waiting R l.recorder.inbound.consumers)
  unfolding handle_all
  handle_all-Answered [] l calm small = (l, [], refl, sym (append-nil l.answers), tt, omega arith)
  handle_all-Answered ((m, msg) ∷ messages) l calm small =
      let (answer, t, r, done, good, less) = handle-Answered m msg l.sink l.recorder calm.0 small in
      let next : Loop Chan S = record l {
        recorder = r;
        sink = t;
        answers = l.answers ++ answer ∷ [];
      } in
      let (q, answers, rest, all, each, less') =
        handle_all-Answered messages next calm.1 (omega (arith, less)) in
      (
        q,
        answer ∷ answers,
        rw (handle_all, done) rest,
        all ∙ append_assoc l.answers (answer ∷ []) answers,
        (good, each),
        omega (arith, less, less'),
      )
