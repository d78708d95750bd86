-- ===== src/Tracer/Runs/Roundtrip.antt =====
-- `__enter__` and then `__exit__` of crates/py/src/tracer.rs, where every call goes well.

use trace.Prelude.{ℕ}
use trace.Tracer.Runs.{World, Calls, Setting, Environ, start, enter_run, String, enter, exit, join}
use trace.Prelude.{Bool, [], false, refl, retain, some, true, ◌++◌, ◌∷◌, ◌≡◌}
use trace.Tracer.Runs.{take_over_deadly_signals, watch, start_exporter, install, stop_advertising}
use trace.Tracer.Runs.{register_fork_hooks, hand_back_deadly_signals, advertise, end_running, close}
use trace.Prelude.{Option, none}
use trace.Prelude.{add64, if◌then◌else◌, ◌≢◌}
use trace.Tracer.Runs.Ended.{IsIdle}
use trace.Tracer.Handlers.{hand_back-take_over}
use trace.Tracer.Runs.{end_run, flush_threads, Signals}
use trace.Prelude.{ap, subst, sym}

abbrev pub well : ℕ → Calls
well lost = record {
  assigns = λ k. true;
  pops = λ k. true;
  has_watcher = true;
  opens = true;
  makes_dir = true;
  spawns = true;
  enables = true;
  disables = true;
  lost = lost;
  exported = true;
  registers_hooks = true;
  has_handler = true;
  names_type = true;
}

-- Whether the run has a recorder.
abbrev pub records : Setting → Bool
records t = elim t.record_mb [ none ↦ false | some mb ↦ true ]

-- Behind `__enter__`.
inside : Setting → ℕ → Environ → World → World
inside t id environ w = record w {
  environ = environ;
  signals = take_over_deadly_signals t.rules t.ours t.deadly w.signals;
  hooks = true;
  watched = retain t.alive w.watched ++ id ∷ [];
  exporter = some (record { closed = false; dropped = 0 });
  monitoring = true;
  running = some (record { control = records t });
  active = true;
}

enter_run-inside :
    (t : Setting) (lost id : ℕ) (w : World)
    → (enter_run t (well lost) id w ≡ some (true, inside t id w.environ w))
unfolding enter_run start watch start_exporter install register_fork_hooks inside
enter_run-inside t lost id w = split t.record_mb w.hooks
  where
    split :
        (record_mb : Option String) (hooks : Bool)
        → let u = record t { record_mb = record_mb } in
          let v = record w { hooks = hooks } in
          (enter_run u (well lost) id v ≡ some (true, inside u id v.environ v))
    split none true = refl
    split none false = refl
    split (some mb) true = refl
    split (some mb) false = refl

enter-inside :
    (t : Setting) (lost id : ℕ) (w : World)
    → (environ : Environ) × (enter t (well lost) id w ≡ some (true, inside t id environ w))
unfolding enter advertise stop_advertising inside
enter-inside t lost id w = split t.trace_subprocesses
  where
    split :
        (trace_subprocesses : Bool)
        → let u = record t { trace_subprocesses = trace_subprocesses } in
          (environ : Environ) × (enter u (well lost) id w ≡ some (true, inside u id environ w))
    split true =
        let u = record t { trace_subprocesses = true } in
        let told : Environ = record {
          output = some t.output;
          format = some t.format;
          record_mb = t.record_mb;
        } in
        (told, enter_run-inside u lost id (record w { environ = told }))
    split false =
        let u = record t { trace_subprocesses = false } in
        let alone : Environ = record { output = none; format = none; record_mb = none } in
        (alone, enter_run-inside u lost id (record w { environ = alone }))

handed_back : Setting → Signals → Signals
handed_back t s =
    hand_back_deadly_signals t.rules t.ours (take_over_deadly_signals t.rules t.ours t.deadly s)

-- Behind `__exit__`.
outside : Setting → ℕ → ℕ → String → World → World
outside t lost id reason w = record w {
  environ = record { output = none; format = none; record_mb = none };
  signals = handed_back t w.signals;
  hooks = true;
  watched = retain t.alive w.watched ++ id ∷ [];
  exporter = none;
  monitoring = false;
  running = none;
  active = false;
  dumps = if records t then w.dumps ++ reason ∷ [] else w.dumps;
  reported = some (add64 0 lost);
}

exit-outside :
    (t : Setting) (lost id : ℕ) (environ : Environ) (reason : String) (w : World)
    → exit t (well lost) reason (inside t id environ w) ≡ some (true, outside t lost id reason w)
unfolding exit handed_back stop_advertising end_running end_run join close flush_threads inside
    outside
exit-outside t lost id environ reason w = refl

-- No handler of a signal is the tracer's own or kept, and each can be read and installed. If every call
-- into Python and the system goes well, `__enter__` succeeds, and so does `__exit__` behind it. Then no
-- run goes on, nothing is advertised, every handler is as it was and none is kept, the number of lost
-- events is what the flush lost, and the recorder, if there is one, has had its last dump.
pub exit-enter :
    (t : Setting) (lost id : ℕ) (reason : String) (w : World)
    → w.signals.replaced ≡ []
    → ((n : ℕ) → w.signals.handler n ≢ t.ours)
    → ((n : ℕ) → t.rules.reads n ≡ true)
    → ((n : ℕ) → t.rules.installs n (w.signals.handler n) ≡ true)
    → (v : World) × (u : World) × (enter t (well lost) id w ≡ some (true, v))
      × (exit t (well lost) reason v ≡ some (true, u))
      × IsIdle u
      × (u.environ ≡ record { output = none; format = none; record_mb = none })
      × ((n : ℕ) → u.signals.handler n ≡ w.signals.handler n)
      × (u.signals.replaced ≡ [])
      × (u.reported ≡ some (add64 0 lost))
      × (u.dumps ≡ (if records t then w.dumps ++ reason ∷ [] else w.dumps))
unfolding outside handed_back
exit-enter t lost id reason w none_before theirs reads installs =
    let (environ, entered) = enter-inside t lost id w in
    let bare : Signals = record { handler = w.signals.handler; replaced = [] } in
    let kept : w.signals ≡ bare = ap (λ r. record w.signals { replaced = r }) none_before in
    let (as_before, none_kept) =
      hand_back-take_over t.rules t.ours t.deadly w.signals.handler theirs reads installs in
    (
      inside t id environ w,
      outside t lost id reason w,
      entered,
      exit-outside t lost id environ reason w,
      record { exporter = refl; monitoring = refl; running = refl; active = refl },
      refl,
      subst (λ s. (n : ℕ) → (handed_back t s).handler n ≡ w.signals.handler n) (sym kept) as_before,
      subst (λ s. (handed_back t s).replaced ≡ []) (sym kept) none_kept,
      refl,
      refl,
    )
