-- ===== src/Examples/Tool.antt =====
-- An interpreter that keeps what the documentation of `sys.monitoring` promises, with every call that
-- may raise going well, and one whose callbacks cannot be registered.
use Prim.Native.String.{String}
use trace.Prelude.{ℕ}
use trace.Monitoring.Tool.{Interpreter, Attributes, MonitoringHandle, Callback, pairs, enable}
use trace.Prelude.{
  Bool, Option, false, if◌then◌else◌, inl, map, none, refl, some, true, ◌&&◌, ◌==◌, ◌≡◌,
}
use trace.Monitoring.Tool.{enable_tool, disable, register_all, unregister_all}
use trace.Event.{EventKind}
use trace.Monitoring.Tool.Failures.{enable-enable}
use trace.Sink.{same_text}
use trace.Monitoring.Tool.Roundtrip.{IsIdle, disable-enable}

record Tools : Type 0 where
  pub used : ℕ → Bool
  pub masks : ℕ → ℕ
  pub calls : ℕ → ℕ → Option Callback

abbrev taken_tool : ℕ → Tools → Bool × Tools
taken_tool tool w =
    if w.used tool
    then (false, w)
    else (true, record w { used = λ t. if t == tool then true else w.used t })

abbrev interpreter : Bool → Interpreter
interpreter registers = record {
  World = Tools;
  in_use = λ w. w.used;
  events = λ w. w.masks;
  callback = λ w. w.calls;
  use_tool_id = taken_tool;
  register_callback = λ tool event c w. (
    registers,
    record w {
      calls = λ t e. if (registers && (t == tool)) && (e == event) then c else w.calls t e;
    },
  );
  set_events =
      λ tool mask w. (true, record w { masks = λ t. if t == tool then mask else w.masks t });
  free_tool_id = λ tool w. (true, record w { used = λ t. if t == tool then false else w.used t });
  use_busy = λ tool w h. rw h refl;
  use_free = λ tool w h. (
    record w { used = λ t. if t == tool then true else w.used t },
    rw h refl,
    λ t. refl,
    λ t. refl,
    λ t e. refl,
  );
  register_lem = λ tool event c w. (λ t. refl, λ t. refl, λ t e. refl);
  set_lem = λ tool mask w. (λ t. refl, λ t. refl, λ t e. refl);
  free_lem = λ tool w. (λ t. refl, λ t. inl refl, λ t e. inl refl);
}

abbrev attributes : Attributes
attributes = record {
  profiler_id = some 2;
  has_events = true;
  makes_callbacks = true;
  value = λ event_name. some (if same_text event_name "PY_START" then 1 else 2);
  makes = λ kind. true;
}

abbrev blank_tools : Tools
blank_tools = record { used = λ t. false; masks = λ t. 0; calls = λ t e. none }

blank-IsIdle : IsIdle (interpreter true) attributes 2 blank_tools
blank-IsIdle = record { no_events = refl; no_callbacks = λ e. refl }

abbrev handle : MonitoringHandle
handle = record { tool_id = 2; registered = map (λ (p : String × EventKind). p.1) pairs }

abbrev enabled : Tools
enabled = (enable (interpreter true) attributes blank_tools).1

enabled_lem : enable (interpreter true) attributes blank_tools ≡ (some handle, enabled)
unfolding enable enable_tool register_all
enabled_lem = refl

disabled_lem :
    disable (interpreter true) attributes handle enabled
    ≡ (true, (disable (interpreter true) attributes handle enabled).1)
unfolding enable enable_tool register_all disable unregister_all
disabled_lem = refl

disable-enable_example :
    ((disable (interpreter true) attributes handle enabled).1.used 2 ≡ false)
    × ((disable (interpreter true) attributes handle enabled).1.masks 2 ≡ 0)
    × ((e : ℕ) → (disable (interpreter true) attributes handle enabled).1.calls 2 e ≡ none)
disable-enable_example =
    disable-enable (interpreter true) attributes 2 blank_tools enabled
      ((disable (interpreter true) attributes handle enabled).1) handle refl blank-IsIdle
      enabled_lem disabled_lem 2

abbrev refused : Tools
refused = (enable (interpreter false) attributes blank_tools).1

refused_lem : enable (interpreter false) attributes blank_tools ≡ (none, refused)
unfolding enable enable_tool register_all
refused_lem = refl

enable-enable_example :
    (refused.used 2 ≡ true) × (enable (interpreter false) attributes refused ≡ (none, refused))
enable-enable_example =
    enable-enable (interpreter false) attributes 2 blank_tools refused refl refl refused_lem
