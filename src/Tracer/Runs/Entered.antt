-- ===== src/Tracer/Runs/Entered.antt =====
-- `__enter__` of crates/py/src/tracer.rs, however the calls into Python and the system end.

use trace.Prelude.{ℕ}
use trace.Tracer.Runs.{World, Calls, Setting, Started, enter, start, advertise, watch}
use trace.Tracer.Runs.Ended.{IsIdle, stop_advertising_lem}
use trace.Prelude.{
  Bool, Bool-cases, Option, [], false, if◌then◌else◌, inl, inr, none, refl, retain, some, true,
  ◌&&◌, ◌++◌, ◌∷◌, ◌≡◌, ◌⊎◌,
}
use trace.Tracer.Runs.{Environ, start_exporter, join, stop_advertising, close, enter_run, install}
use trace.Prelude.{sym, ◌∙◌}
use trace.Tracer.Runs.{register_fork_hooks}

-- A run that records, whether it is installed or not.
pub record Records (v : World) : Type 0 where
  pub queue : ℕ
  pub exporter : v.exporter ≡ some (record { closed = false; dropped = queue })
  pub monitoring : v.monitoring ≡ true

-- The calls before a run begins change the environment alone.
told_lem :
    (t : Setting) (c : Calls) (w : World)
    → (ok : Bool) × (environ : Environ) × ((if t.trace_subprocesses
          then advertise t c w
          else stop_advertising c w)
        ≡ (ok, record w { environ = environ }))
unfolding advertise
told_lem t c w =
    let one : Environ = record w.environ { output = some t.output } in
    let two : Environ = record one { format = some t.format } in
    elim (Bool-cases t.trace_subprocesses) [
      | inr alone ↦
          let (environ, e) = stop_advertising_lem c w in
          ((c.pops 0 && c.pops 1) && c.pops 2, environ, simp alone e)
      | inl told ↦ elim (Bool-cases (c.assigns 0)) [
        | inr no_first ↦ (false, w.environ, simp (told, no_first) refl)
        | inl first ↦ elim (Bool-cases (c.assigns 1)) [
          | inr no_second ↦ (false, one, simp (told, first, no_second) refl)
          | inl second ↦ elim (Bool-cases (c.assigns 2)) [
            | inr no_third ↦ (false, two, simp (told, first, second, no_third) refl)
            | inl third ↦ (
              true,
              record two { record_mb = t.record_mb },
              simp (told, first, second, third) refl,
            )
          ]
        ]
      ]
    ]

-- Where a run begins, nothing else of the process changes.
Begun : World → Option Started → World → Type 0
Begun w none v = IsIdle v
Begun w (some run) v =
    Records v × (v.running ≡ w.running) × (v.active ≡ w.active) × (v.hooks ≡ w.hooks)

start_lem :
    (t : Setting) (c : Calls) (id : ℕ) (w : World)
    → IsIdle w
    → (run : Option Started) × (v : World) × (start t c id w ≡ some (run, v)) × Begun w run v
unfolding start watch start_exporter join close Begun
start_lem t c id w h =
    let watching : World = record w { watched = retain t.alive w.watched ++ id ∷ [] } in
    let records : Bool = elim t.record_mb [ none ↦ false | some mb ↦ true ] in
    let idle : IsIdle watching = record {
      exporter = h.exporter;
      monitoring = h.monitoring;
      running = h.running;
      active = h.active;
    } in
    elim (Bool-cases c.has_watcher) [
      | inr missing ↦ (none, w, simp missing refl, h)
      | inl there ↦ elim (Bool-cases ((if records then c.makes_dir else c.opens) && c.spawns)) [
        | inr failed ↦ (none, watching, simp (there, failed) refl, idle)
        | inl spawned ↦ elim (Bool-cases c.enables) [
          | inr refused ↦ (
            none,
            record watching { exporter = none; reported = some 0 },
            simp (there, spawned, refused) refl,
            record {
              exporter = refl;
              monitoring = h.monitoring;
              running = h.running;
              active = h.active;
            },
          )
          | inl enabled ↦ (
            some (record { control = records }),
            record watching {
              exporter = some (record { closed = false; dropped = 0 });
              monitoring = true;
            },
            simp (there, spawned, enabled) refl,
            (record { queue = 0; exporter = refl; monitoring = refl }, refl, refl, refl),
          )
        ]
      ]
    ]

-- How `__enter__` may leave the process: the run goes on, or there is none, or the run goes on and the
-- tracer does not have it.
abbrev pub Entered : Calls → World → Bool → World → Type 0
Entered c w ok v =
    ((ok ≡ true) × Records v × ((run : Started) × (v.running ≡ some run)) × (v.active ≡ true))
    ⊎ ((ok ≡ false) × IsIdle v)
    ⊎ ((ok ≡ false)
        × Records v
        × (v.running ≡ none)
        × (v.active ≡ false)
        × (((w.hooks ≡ false) × (c.registers_hooks ≡ false)) ⊎ (c.has_handler ≡ false)))

hooks_refused :
    (hooks registers : Bool)
    → (if hooks then true else registers) ≡ false
    → (hooks ≡ false) × (registers ≡ false)
hooks_refused true registers e = cc
hooks_refused false registers e = (refl, e)

install-Entered :
    (t : Setting) (c : Calls) (run : Started) (w v : World)
    → Records v
    → v.running ≡ none
    → v.active ≡ false
    → v.hooks ≡ w.hooks
    → let (ok, u) = install t c run v in Entered c w ok u
unfolding install register_fork_hooks
install-Entered t c run w v r n a k =
    elim (Bool-cases (if v.hooks then true else c.registers_hooks)) [
      | inr refused ↦
          let (no_hooks, why) = hooks_refused v.hooks c.registers_hooks refused in
          simp refused (
            inr (
              inr (
                refl,
                record { queue = r.queue; exporter = r.exporter; monitoring = r.monitoring },
                n,
                a,
                inl (sym k ∙ no_hooks, why),
              )))
      | inl hooked ↦ elim (Bool-cases c.has_handler) [
        | inr missing ↦
            simp (hooked, missing)
              (inr (
                inr (
                  refl,
                  record { queue = r.queue; exporter = r.exporter; monitoring = r.monitoring },
                  n,
                  a,
                  inr refl,
                )))
        | inl there ↦
            simp (hooked, there)
              (inl (
                refl,
                record { queue = r.queue; exporter = r.exporter; monitoring = r.monitoring },
                (run, refl),
                refl,
              ))
      ]
    ]

enter_run-Entered :
    (t : Setting) (c : Calls) (id : ℕ) (w : World)
    → IsIdle w
    → (ok : Bool) × (v : World) × (enter_run t c id w ≡ some (ok, v)) × Entered c w ok v
unfolding enter_run Begun
enter_run-Entered t c id w h = go (start_lem t c id w h)
  where
    go :
        (run : Option Started) × (v : World) × (start t c id w ≡ some (run, v)) × Begun w run v
        → (ok : Bool) × (v : World) × (enter_run t c id w ≡ some (ok, v)) × Entered c w ok v
    go (none, v, e, idle) = (false, v, rw (enter_run, e) refl, inr (inl (refl, idle)))
    go (some run, v, e, (r, n, a, k)) =
        let (ok, u) = install t c run v in
        (
          ok,
          u,
          rw (enter_run, e) refl,
          install-Entered t c run w v r (n ∙ h.running) (a ∙ h.active) k,
        )

-- `__enter__` on a process where no run goes on always ends. It succeeds, and then the run goes on and
-- is the tracer's, which is the active one; or it fails, and then no run goes on, or one does, with its
-- callbacks on and its queue open, that the tracer does not have. The last happens only where the hooks
-- around a fork cannot be registered, or the handler of signals is not found.
pub enter-Entered :
    (t : Setting) (c : Calls) (id : ℕ) (w : World)
    → IsIdle w
    → (ok : Bool) × (v : World) × (enter t c id w ≡ some (ok, v)) × Entered c w ok v
unfolding enter
enter-Entered t c id w h =
    let (told, environ, e) = told_lem t c w in
    let w1 : World = record w { environ = environ } in
    let idle : IsIdle w1 = record {
      exporter = h.exporter;
      monitoring = h.monitoring;
      running = h.running;
      active = h.active;
    } in
    elim (Bool-cases told) [
      | inr failed ↦ (false, w1, simp (e, failed) refl, inr (inl (refl, idle)))
      | inl fine ↦
          let (ok, v, ran, entered) = enter_run-Entered t c id w1 idle in
          (ok, v, simp (e, fine) ran, entered)
    ]
