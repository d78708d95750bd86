-- ===== src/Tracer/Forks.antt =====
-- The hooks around a fork of crates/py/src/tracer.rs. A run is the slot and the mode that it began with,
-- and whether its callbacks are on; what the calls into the interpreter give is an argument.
use trace.Tls.Recorders.{forget_other_threads}
use trace.Prelude.{Bool, List, Option, [], false, if◌then◌else◌, none, some, true, ℕ, ◌≡◌}
use trace.Prelude.{not, refl, ◌&&◌, ◌||◌}

pub record Run : Type 0 where
  pub slot : ℕ
  pub appends : Bool
  pub monitoring : Bool

-- The state of the process: the run of the active tracer, if one is active, and whether that traces
-- subprocesses; the states that the code watcher knows; and the threads that record.
pub record Process : Type 0 where
  pub active : Bool
  pub trace_subprocesses : Bool
  pub running : Option Run
  pub watched : List ℕ
  pub recorders : List ℕ

-- Whether a hook succeeds, and the state behind it.
abbrev pub Hook : Type 0
Hook = Process → Bool × Process

-- `with_active`
unfoldable pub with_active : Hook → Hook
with_active f p = if p.active then f p else (true, p)

-- `running.monitoring.take()`, and `disable` of what was there.
unfoldable pub stop_monitoring : Bool → Option Run → Bool × Option Run
stop_monitoring disables none = (true, none)
stop_monitoring disables (some run) =
    if run.monitoring
    then (disables, some (record run { monitoring = false }))
    else (true, some run)

unfoldable pub before_fork : Bool → Hook
unfolding with_active stop_monitoring
before_fork disables =
    with_active (λ p.
      (let (ok, run) = stop_monitoring disables p.running in (ok, record p { running = run })))

-- `enable` gives a new handle, or fails and leaves what was there.
unfoldable pub start_monitoring : Bool → Option Run → Bool × Option Run
start_monitoring enables none = (true, none)
start_monitoring enables (some run) =
    if enables then (true, some (record run { monitoring = true })) else (false, some run)

unfoldable pub after_fork_in_parent : Bool → Hook
unfolding with_active start_monitoring
after_fork_in_parent enables =
    with_active (λ p.
      (let (ok, run) = start_monitoring enables p.running in (ok, record p { running = run })))

-- `begin_child` in the process `pid`, which may fail.
unfoldable pub begin_child : Bool → ℕ → Bool × Option Run
begin_child begins pid =
    if begins
    then (true, some (record { slot = pid; appends = true; monitoring = true }))
    else (false, none)

-- The thread that forked is the only one left in the child.
unfoldable pub after_fork_in_child : Bool → ℕ → ℕ → Hook
unfolding with_active begin_child
after_fork_in_child begins pid cold p =
    with_active
      (λ q.
        (let left = record q {
          running = none;
          recorders = forget_other_threads cold q.recorders;
        } in
          let (ok, run) = begin_child begins pid in
          if q.trace_subprocesses then (ok, record left { running = run }) else (true, left)))
      (record p { watched = [] })

-- A process with a run whose callbacks are on or off.
abbrev with_run : Bool → Bool → ℕ → Bool → List ℕ → List ℕ → Bool → Process
with_run active subprocesses slot appends watched recorders monitoring = record {
  active = active;
  trace_subprocesses = subprocesses;
  running = some (record { slot = slot; appends = appends; monitoring = monitoring });
  watched = watched;
  recorders = recorders;
}

-- A fork of a process whose callbacks are on, where the interpreter switches them off and on, leaves the
-- parent as it was. In between they are off if its tracer is active, which is the state that the child has.
after_fork_in_parent-before_fork :
    (active subprocesses : Bool) (slot : ℕ) (appends : Bool) (watched recorders : List ℕ)
    → let p = with_run active subprocesses slot appends watched recorders in
      (before_fork true (p true) ≡ (true, p (not active)))
      × (after_fork_in_parent true (p (not active)) ≡ (true, p true))
unfolding before_fork after_fork_in_parent with_active stop_monitoring start_monitoring
after_fork_in_parent-before_fork true subprocesses slot appends watched recorders = (refl, refl)
after_fork_in_parent-before_fork false subprocesses slot appends watched recorders = (refl, refl)

-- A child whose tracer is active has no run of its parent: it begins one of its own, in the slot of its
-- own process, where subprocesses are traced and the run can begin, and else it has none. Only the thread
-- that forked is left.
after_fork_in_child_lem :
    (begins subprocesses : Bool) (pid cold : ℕ) (running : Option Run) (watched recorders : List ℕ)
    → let p : Process = record {
      active = true;
      trace_subprocesses = subprocesses;
      running = running;
      watched = watched;
      recorders = recorders;
    } in
      let (ok, q) = after_fork_in_child begins pid cold p in
      (ok ≡ (begins || not subprocesses))
      × (q.running ≡ (
          if begins && subprocesses
          then some (record { slot = pid; appends = true; monitoring = true })
          else none))
      × (q.watched ≡ [])
      × (q.recorders ≡ forget_other_threads cold recorders)
unfolding after_fork_in_child with_active begin_child
after_fork_in_child_lem true true pid cold running watched recorders = (refl, refl, refl, refl)
after_fork_in_child_lem true false pid cold running watched recorders = (refl, refl, refl, refl)
after_fork_in_child_lem false true pid cold running watched recorders = (refl, refl, refl, refl)
after_fork_in_child_lem false false pid cold running watched recorders = (refl, refl, refl, refl)
