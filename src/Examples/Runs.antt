-- ===== src/Examples/Runs.antt =====
-- A run that is entered while the handler of signals is missing, and one that is left while the
-- environment cannot be cleared. Then one where every call goes well.

use trace.Tracer.Runs.{World, Calls, Setting, Exporter, enter, exit}
use trace.Tracer.Runs.Ended.{IsOver, GoesOn, exit-GoesOn}
use trace.Tracer.Runs.Roundtrip.{well, exit-enter}
use trace.Tracer.Runs.Ended.{IsIdle}
use trace.Prelude.{ℕ, arith}
use trace.Tracer.Runs.Entered.{Entered, enter-Entered}
use trace.Prelude.{Bool, [], false, ltb, none, refl, some, true, ◌∷◌, ◌≡◌, ◌⊎◌}
use trace.Prelude.{add64}

abbrev setting : Setting
setting = record {
  output = "out";
  format = "json";
  record_mb = none;
  trace_subprocesses = true;
  alive = λ id. true;
  rules = record { reads = λ n. true; installs = λ n handler. true };
  ours = 1;
  deadly = some 15 ∷ none ∷ [];
}

-- The variables of the environment can be set, and the second cannot be cleared.
abbrev calls : Calls
calls = record {
  assigns = λ k. true;
  pops = λ k. ltb k 1;
  has_watcher = true;
  opens = true;
  makes_dir = true;
  spawns = true;
  enables = true;
  disables = true;
  lost = 3;
  exported = true;
  registers_hooks = true;
  has_handler = true;
  names_type = true;
}

abbrev idle : World
idle = record {
  environ = record { output = none; format = none; record_mb = none };
  signals = record { handler = λ n. 0; replaced = [] };
  hooks = false;
  watched = [];
  exporter = none;
  monitoring = false;
  running = none;
  active = false;
  dumps = [];
  reported = none;
}

abbrev exporting : Exporter
exporting = record { closed = false; dropped = 2 }

abbrev recording : World
recording = record idle {
  exporter = some exporting;
  monitoring = true;
  running = some (record { control = true });
  active = true;
}

enter-Entered_example :
    (ok : Bool) × (v : World) × (enter setting (record calls { has_handler = false }) 7 idle
      ≡ some (ok, v))
    × Entered (record calls { has_handler = false }) idle ok v
enter-Entered_example =
    enter-Entered setting (record calls { has_handler = false }) 7 idle
      (record { exporter = refl; monitoring = refl; running = refl; active = refl })

exit-GoesOn_example :
    (ok : Bool) × (v : World) × (exit setting calls "exit" recording ≡ some (ok, v))
    × (v.active ≡ false)
    × (((ok ≡ true)
          × IsOver calls "exit" (record { control = true }) exporting recording v
          × (true ≡ true)
          × (false ≡ true)
          × (true ≡ true))
        ⊎ ((ok ≡ false) × GoesOn recording v × ((true ≡ false) ⊎ (false ≡ false) ⊎ (true ≡ false))))
exit-GoesOn_example =
    exit-GoesOn setting calls "exit" (record { control = true }) exporting recording refl refl

exit-enter_example :
    (v : World) × (u : World) × (enter setting (well 3) 7 idle ≡ some (true, v))
    × (exit setting (well 3) "exit" v ≡ some (true, u))
    × IsIdle u
    × (u.environ ≡ record { output = none; format = none; record_mb = none })
    × ((n : ℕ) → u.signals.handler n ≡ 0)
    × (u.signals.replaced ≡ [])
    × (u.reported ≡ some (add64 0 3))
    × (u.dumps ≡ [])
exit-enter_example =
    exit-enter setting 3 7 "exit" idle refl (λ n e. omega arith) (λ n. refl) (λ n. refl)
