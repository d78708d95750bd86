-- ===== src/Monitoring/Tool.antt =====
-- `enable` and `disable` of crates/py/src/monitoring.rs: the tracer becomes the profiler of the
-- interpreter, with a callback for each kind of event.
pub mod Restored
pub mod Roundtrip
pub mod Failures
use Prim.Native.String.{String}
use trace.Prelude.{ℕ}
use trace.Prelude.{
  Bool, List, Option, [], bit_or, false, if◌then◌else◌, map, none, some, true, ◌&&◌, ◌==◌, ◌∷◌, ◌≡◌,
  ◌⊎◌,
}
use trace.Event.{EventKind, begin, finish, yield, resume, unwind, throw}

-- What the documentation of `sys.monitoring` promises. `World` is the interpreter's state; a call that
-- raises gives `false`. A tool is in use or free, has a set of events, and has a callback or none for
-- each event. A callback is the kind of event it records, of the tracer; those of others are `others`.
pub data Callback : Type 0 where
  ours : EventKind → Callback
  others : ℕ → Callback

pub record Interpreter : Type 1 where
  pub World : Type 0
  pub in_use : World → ℕ → Bool
  pub events : World → ℕ → ℕ
  pub callback : World → ℕ → ℕ → Option Callback
  pub use_tool_id : ℕ → World → Bool × World
  pub register_callback : ℕ → ℕ → Option Callback → World → Bool × World
  pub set_events : ℕ → ℕ → World → Bool × World
  pub free_tool_id : ℕ → World → Bool × World
  -- A tool in use cannot be taken.
  pub use_busy : (tool : ℕ) (w : World) → in_use w tool ≡ true → use_tool_id tool w ≡ (false, w)
  pub use_free :
      (tool : ℕ) (w : World)
      → in_use w tool ≡ false
      → (v : World) × (use_tool_id tool w ≡ (true, v))
        × ((t : ℕ) → in_use v t ≡ (if t == tool then true else in_use w t))
        × ((t : ℕ) → events v t ≡ events w t)
        × ((t e : ℕ) → callback v t e ≡ callback w t e)
  -- Whether it raises or not, it touches one callback at most.
  pub register_lem :
      (tool event : ℕ) (c : Option Callback) (w : World)
      → let (ok, v) = register_callback tool event c w in
        ((t : ℕ) → in_use v t ≡ in_use w t)
        × ((t : ℕ) → events v t ≡ events w t)
        × ((t e : ℕ)
            → callback v t e ≡ (if (ok && (t == tool)) && (e == event) then c else callback w t e))
  pub set_lem :
      (tool mask : ℕ) (w : World)
      → let (ok, v) = set_events tool mask w in
        ((t : ℕ) → in_use v t ≡ in_use w t)
        × ((t : ℕ) → events v t ≡ (if ok && (t == tool) then mask else events w t))
        × ((t e : ℕ) → callback v t e ≡ callback w t e)
  -- What a freed tool leaves set may go or stay.
  pub free_lem :
      (tool : ℕ) (w : World)
      → let (ok, v) = free_tool_id tool w in
        ((t : ℕ) → in_use v t ≡ (if ok && (t == tool) then false else in_use w t))
        × ((t : ℕ) → (events v t ≡ events w t) ⊎ ((t ≡ tool) × (events v t ≡ 0)))
        × ((t e : ℕ) → (callback v t e ≡ callback w t e) ⊎ ((t ≡ tool) × (callback v t e ≡ none)))

-- `PAIRS`
abbrev pub pairs : List (String × EventKind)
pairs =
    ("PY_START", begin)
    ∷ ("PY_RETURN", finish)
    ∷ ("PY_YIELD", yield)
    ∷ ("PY_RESUME", resume)
    ∷ ("PY_UNWIND", unwind)
    ∷ ("PY_THROW", throw)
    ∷ []

-- What the interpreter has at hand: `PROFILER_ID`, the module's `events`, the value of an event, and
-- whether the objects can be made. A missing attribute raises.
pub record Attributes : Type 0 where
  pub profiler_id : Option ℕ
  pub has_events : Bool
  pub makes_callbacks : Bool
  pub value : String → Option ℕ
  pub makes : EventKind → Bool

pub record MonitoringHandle : Type 0 where
  pub tool_id : ℕ
  pub registered : List EventKind

module _ (I : Interpreter) (attributes : Attributes) where
  open I use {World, use_tool_id, register_callback, set_events, free_tool_id}
  open attributes use {profiler_id, has_events, makes_callbacks, value, makes}

  -- The loop of `enable`: the mask, unless something raises.
  unfoldable pub register_all : ℕ → List (String × EventKind) → ℕ → World → Option ℕ × World
  register_all tool [] mask w = (some mask, w)
  register_all tool ((event_name, kind) ∷ rest) mask w = elim (value event_name) [
    | none ↦ (none, w)
    | some event_val ↦
        let (ok, v) = register_callback tool event_val (some (ours kind)) w in
        let more = register_all tool rest (bit_or mask event_val) v in
        if makes kind then (if ok then more else (none, v)) else (none, w)
  ]

  -- `enable`, once the tool is taken.
  unfoldable pub enable_tool : ℕ → World → Option MonitoringHandle × World
  enable_tool tool w =
      if has_events && makes_callbacks
      then (let (mask, v) = register_all tool pairs 0 w in
          elim mask [
            | none ↦ (none, v)
            | some mask ↦
                let (ok, u) = set_events tool mask v in
                (
                  if ok
                      then some (record { tool_id = tool; registered = map (λ p. p.1) pairs })
                      else none,
                  u,
                )
          ])
      else (none, w)

  unfoldable pub enable : World → Option MonitoringHandle × World
  enable w = elim profiler_id [
    | none ↦ (none, w)
    | some tool ↦ let (ok, v) = use_tool_id tool w in if ok then enable_tool tool v else (none, v)
  ]

  -- The loop of `disable`: whether nothing raises.
  unfoldable pub unregister_all : ℕ → List (String × EventKind) → World → Bool × World
  unregister_all tool [] w = (true, w)
  unregister_all tool ((event_name, _) ∷ rest) w = elim (value event_name) [
    | none ↦ (false, w)
    | some ev ↦
        let (ok, v) = register_callback tool ev none w in
        let more = unregister_all tool rest v in if ok then more else (false, v)
  ]

  unfoldable pub disable : MonitoringHandle → World → Bool × World
  disable handle w =
      let (ok, v) = set_events handle.tool_id 0 w in
      let (cleared, u) = unregister_all handle.tool_id pairs v in
      let freed = free_tool_id handle.tool_id u in
      if ok
      then (if has_events then (if cleared then freed else (false, u)) else (false, v))
      else (false, v)
