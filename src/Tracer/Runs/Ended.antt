-- ===== src/Tracer/Runs/Ended.antt =====
-- `__enter__` and `__exit__` of crates/py/src/tracer.rs, however the calls into Python end.
use Prim.Native.String.{String}
use trace.Tracer.Runs.{World, Calls, Setting, Started, Exporter, exit, join, close, end_run}
use trace.Prelude.{
  Bool, [], add64, false, if◌then◌else◌, none, some, true, ◌&&◌, ◌++◌, ◌∷◌, ◌≡◌, ◌⊎◌,
}
use trace.Tracer.Runs.{stop_advertising, flush_threads, Environ, hand_back_deadly_signals}
use trace.Prelude.{ap, refl}
use trace.Prelude.{Bool-cases, inl, inr}
use trace.Prelude.{◌∙◌}
use trace.Tracer.Runs.{end_running}

-- The process between two runs.
pub record IsIdle (w : World) : Type 0 where
  pub exporter : w.exporter ≡ none
  pub monitoring : w.monitoring ≡ false
  pub running : w.running ≡ none
  pub active : w.active ≡ false

-- What a run leaves that has ended.
pub record IsOver (c : Calls) (reason : String) (run : Started) (e : Exporter) (w v : World)
    : Type 0 where
  pub exporter : v.exporter ≡ none
  pub running : v.running ≡ none
  pub reported : v.reported ≡ some (add64 e.dropped c.lost)
  pub monitoring : c.disables ≡ true → v.monitoring ≡ false
  pub dumps : v.dumps ≡ (if run.control then w.dumps ++ reason ∷ [] else w.dumps)

-- A run that goes on.
pub record GoesOn (w v : World) : Type 0 where
  pub exporter : v.exporter ≡ w.exporter
  pub running : v.running ≡ w.running
  pub monitoring : v.monitoring ≡ w.monitoring
  pub dumps : v.dumps ≡ w.dumps

-- The process behind a run that has ended.
left_by : Calls → String → Started → Exporter → World → World
left_by c reason run e w = record w {
  exporter = none;
  reported = some (add64 e.dropped c.lost);
  monitoring = if c.disables then false else w.monitoring;
  running = none;
  dumps = if run.control then w.dumps ++ reason ∷ [] else w.dumps;
}

end_run_lem :
    (c : Calls) (reason : String) (run : Started) (e : Exporter) (w : World)
    → w.exporter ≡ some e
    → end_run c reason run (record w { running = none })
      ≡ some (c.disables && c.exported, left_by c reason run e w)
unfolding end_run join close flush_threads left_by
end_run_lem c reason run e w h =
    ap (λ o. end_run c reason run (record w { exporter = o; running = none })) h

left_by-IsOver :
    (c : Calls) (reason : String) (run : Started) (e : Exporter) (w : World)
    → IsOver c reason run e w (left_by c reason run e w)
unfolding left_by
left_by-IsOver c reason run e w = record {
  exporter = refl;
  running = refl;
  reported = refl;
  monitoring = λ ok. rw ok refl;
  dumps = refl;
}

-- It changes the environment alone.
pub stop_advertising_lem :
    (c : Calls) (w : World)
    → (environ : Environ) × (stop_advertising c w
        ≡ ((c.pops 0 && c.pops 1) && c.pops 2, record w { environ = environ }))
unfolding stop_advertising
stop_advertising_lem c w =
    let one : Environ = record w.environ { output = none } in
    let two : Environ = record one { format = none } in
    elim (Bool-cases (c.pops 0)) [
      | inr no_first ↦ (w.environ, simp no_first refl)
      | inl first ↦ elim (Bool-cases (c.pops 1)) [
        | inr no_second ↦ (one, simp (first, no_second) refl)
        | inl second ↦ elim (Bool-cases (c.pops 2)) [
          | inr no_third ↦ (two, simp (first, second, no_third) refl)
          | inl third ↦ (record two { record_mb = none }, simp (first, second, third) refl)
        ]
      ]
    ]

-- `__exit__` of a tracer that has a run always ends, and then no tracer is active. Where the handlers of
-- signals are handed back, the environment is cleared and the exception's type has a name, the run has
-- ended: its thread is joined, the number of lost events has what the flush lost, the recorder has its
-- last dump, and the callbacks are off unless that failed; the result tells of that and of the thread.
-- Where one of the three fails, `__exit__` fails and the run goes on.
pub exit-GoesOn :
    (t : Setting) (c : Calls) (reason : String) (run : Started) (e : Exporter) (w : World)
    → w.running ≡ some run
    → w.exporter ≡ some e
    → (ok : Bool) × (v : World) × (exit t c reason w ≡ some (ok, v))
      × (v.active ≡ false)
      × (((ok ≡ (c.disables && c.exported))
            × IsOver c reason run e w v
            × (c.has_handler ≡ true)
            × ((c.pops 0 && c.pops 1) && c.pops 2 ≡ true)
            × (c.names_type ≡ true))
          ⊎ ((ok ≡ false)
              × GoesOn w v
              × ((c.has_handler ≡ false)
                  ⊎ ((c.pops 0 && c.pops 1) && c.pops 2 ≡ false)
                  ⊎ (c.names_type ≡ false))))
unfolding exit end_running left_by
exit-GoesOn t c reason run e w r h =
    let given_back : World = record w {
      active = false;
      signals = hand_back_deadly_signals t.rules t.ours w.signals;
    } in
    let (environ, told) = stop_advertising_lem c given_back in
    let stays : GoesOn w (record given_back { environ = environ }) = record {
      exporter = refl;
      running = refl;
      monitoring = refl;
      dumps = refl;
    } in
    elim (Bool-cases c.has_handler) [
      | inr missing ↦ (
        false,
        record w { active = false },
        simp missing refl,
        refl,
        inr (
          refl,
          record { exporter = refl; running = refl; monitoring = refl; dumps = refl },
          inl missing,
        ),
      )
      | inl there ↦ elim (Bool-cases ((c.pops 0 && c.pops 1) && c.pops 2)) [
        | inr kept ↦ (
          false,
          record given_back { environ = environ },
          simp (there, told, kept) refl,
          refl,
          inr (refl, stays, inr (inl kept)),
        )
        | inl popped ↦ elim (Bool-cases c.names_type) [
          | inr nameless ↦ (
            false,
            record given_back { environ = environ },
            simp (there, told, popped, nameless) refl,
            refl,
            inr (refl, stays, inr (inr nameless)),
          )
          | inl named ↦
              let told_world : World = record given_back { environ = environ } in
              let over = left_by-IsOver c reason run e told_world in
              let ran : end_running c reason told_world.running told_world
                  ≡ some (c.disables && c.exported, left_by c reason run e told_world) =
                ap (λ o. end_running c reason o told_world) r
                ∙ end_run_lem c reason run e told_world h in
              (
                c.disables && c.exported,
                left_by c reason run e told_world,
                simp (there, told, popped, named) ran,
                refl,
                inl (
                  refl,
                  record {
                    exporter = over.exporter;
                    running = over.running;
                    reported = over.reported;
                    monitoring = over.monitoring;
                    dumps = over.dumps;
                  },
                  there,
                  popped,
                  named,
                ),
              )
        ]
      ]
    ]
