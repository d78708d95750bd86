-- ===== src/Tracer/Runs.antt =====
-- A run of the tracer from its start to its end, in crates/py/src/tracer.rs: `start`, `end`, `install`,
-- `__enter__` and `__exit__`. What the calls into Python and the system give is an argument.
pub mod Ended
pub mod Entered
pub mod Roundtrip
use Prim.Native.String.{String}
use trace.Prelude.{ℕ}
use trace.Prelude.{
  Bool, List, Option, [], false, if◌then◌else◌, none, retain, some, true, ◌&&◌, ◌++◌, ◌∷◌,
}
use trace.Tracer.{Signals, hand_back_deadly_signals, Rules, take_over_deadly_signals}
use trace.Prelude.{add64}

-- `CHILD_OUTPUT`, `CHILD_FORMAT` and `CHILD_RECORD_MB` of `os.environ`.
pub record Environ : Type 0 where
  pub output : Option String
  pub format : Option String
  pub record_mb : Option String

-- The exporter's thread while it has not been joined, and the queue that it drains.
pub record Exporter : Type 0 where
  pub closed : Bool
  pub dropped : ℕ

-- What `Running` holds: whether there is a channel to a recorder.
pub record Started : Type 0 where
  pub control : Bool

-- The process, for one tracer. `watched` is `WATCHED`, `hooks` whether `HOOKS_REGISTERED` was called,
-- `running` the slot of the tracer, `dumps` the reasons of the `DumpAll`s sent, and `reported` the number
-- of lost events that the last queue had when its exporter was joined.
pub record World : Type 0 where
  pub environ : Environ
  pub signals : Signals
  pub hooks : Bool
  pub watched : List ℕ
  pub exporter : Option Exporter
  pub monitoring : Bool
  pub running : Option Started
  pub active : Bool
  pub dumps : List String
  pub reported : Option ℕ

-- Whether a call goes well: one of those into Python, or of the system. `assigns` and `pops` count the
-- variables of `os.environ`; `exported` is what the exporter's thread returns, `false` for an error or a
-- panic. `lost` is what `flush_every_thread` gives.
pub record Calls : Type 0 where
  pub assigns : ℕ → Bool
  pub pops : ℕ → Bool
  pub has_watcher : Bool
  pub opens : Bool
  pub makes_dir : Bool
  pub spawns : Bool
  pub enables : Bool
  pub disables : Bool
  pub lost : ℕ
  pub exported : Bool
  pub registers_hooks : Bool
  pub has_handler : Bool
  pub names_type : Bool

-- A tracer, and the constants of its process. `alive` tells of the states that the watcher knows.
pub record Setting : Type 0 where
  pub output : String
  pub format : String
  pub record_mb : Option String
  pub trace_subprocesses : Bool
  pub alive : ℕ → Bool
  pub rules : Rules
  pub ours : ℕ
  pub deadly : List (Option ℕ)

unfoldable pub advertise : Setting → Calls → World → Bool × World
advertise t c w =
    let first = record w.environ { output = some t.output } in
    let second = record first { format = some t.format } in
    if c.assigns 0
    then (if c.assigns 1
        then (if c.assigns 2
            then (true, record w { environ = record second { record_mb = t.record_mb } })
            else (false, record w { environ = second }))
        else (false, record w { environ = first }))
    else (false, w)

unfoldable pub stop_advertising : Calls → World → Bool × World
stop_advertising c w =
    let first = record w.environ { output = none } in
    let second = record first { format = none } in
    if c.pops 0
    then (if c.pops 1
        then (if c.pops 2
            then (true, record w { environ = record second { record_mb = none } })
            else (false, record w { environ = second }))
        else (false, record w { environ = first }))
    else (false, w)

-- `codewatch::watch` of the state `id`.
unfoldable pub watch : (ℕ → Bool) → Bool → ℕ → World → Bool × World
watch alive has_watcher id w =
    if has_watcher
    then (true, record w { watched = retain alive w.watched ++ id ∷ [] })
    else (false, w)

unfoldable pub close : World → World
close w = record w {
  exporter = elim w.exporter [ none ↦ none | some e ↦ some (record e { closed = true }) ];
}

-- `queue.record_dropped(tls::flush_every_thread())`
unfoldable pub flush_threads : ℕ → World → World
flush_threads lost w = record w {
  exporter = elim w.exporter [
    | none ↦ none
    | some e ↦ some (record e { dropped = add64 e.dropped lost })
  ];
}

-- `exporter.join()`, which waits for ever for a thread whose queue is open: then it is `none`.
unfoldable pub join : World → Option World
join w = elim w.exporter [
  | none ↦ none
  | some e ↦
      if e.closed then some (record w { exporter = none; reported = some e.dropped }) else none
]

-- `start`, past the watcher: the sink, the thread and the callbacks. `none` is a call that does not end.
unfoldable pub start_exporter : Setting → Calls → World → Option (Option Started × World)
start_exporter t c w =
    let records : Bool = elim t.record_mb [ none ↦ false | some mb ↦ true ] in
    let spawned = record w { exporter = some (record { closed = false; dropped = 0 }) } in
    let failed = join (close spawned) in
    if (if records then c.makes_dir else c.opens) && c.spawns
    then (if c.enables
        then some (some (record { control = records }), record spawned { monitoring = true })
        else elim failed [ none ↦ none | some left ↦ some (none, left) ])
    else some (none, w)

unfoldable pub start : Setting → Calls → ℕ → World → Option (Option Started × World)
start t c id w =
    let (ok, watching) = watch t.alive c.has_watcher id w in
    if ok then start_exporter t c watching else some (none, w)

-- `end`, in its order: the callbacks, the batches in hand, the last dump, the close and the join.
unfoldable pub end_run : Calls → String → Started → World → Option (Bool × World)
end_run c reason run w =
    let quiet = record w { monitoring = if c.disables then false else w.monitoring } in
    let flushed = flush_threads c.lost quiet in
    let dumped = record flushed {
      dumps = if run.control then w.dumps ++ reason ∷ [] else w.dumps;
    } in
    elim (join (close dumped)) [ none ↦ none | some left ↦ some (c.disables && c.exported, left) ]

-- `register_fork_hooks`: the first call alone does anything.
unfoldable pub register_fork_hooks : Calls → World → Bool × World
register_fork_hooks c w = (if w.hooks then true else c.registers_hooks, record w { hooks = true })

-- Whether `install` succeeds; a run that is not installed is dropped.
unfoldable pub install : Setting → Calls → Started → World → Bool × World
install t c run w =
    let (ok, hooked) = register_fork_hooks c w in
    let taken = record hooked {
      signals = take_over_deadly_signals t.rules t.ours t.deadly hooked.signals;
    } in
    if ok
    then (if c.has_handler
        then (true, record taken { running = some run; active = true })
        else (false, hooked))
    else (false, hooked)

unfoldable pub enter_run : Setting → Calls → ℕ → World → Option (Bool × World)
enter_run t c id w = elim (start t c id w) [
  | none ↦ none
  | some (none, left) ↦ some (false, left)
  | some (some run, left) ↦ some (install t c run left)
]

-- `__enter__`
unfoldable pub enter : Setting → Calls → ℕ → World → Option (Bool × World)
enter t c id w =
    let (ok, told) = if t.trace_subprocesses then advertise t c w else stop_advertising c w in
    if ok then enter_run t c id told else some (false, told)

-- What `__exit__` does of the slot.
unfoldable pub end_running : Calls → String → Option Started → World → Option (Bool × World)
end_running c reason none w = some (true, w)
end_running c reason (some run) w = end_run c reason run (record w { running = none })

-- `end_active_run`: whether the two locks are free is known.
unfoldable pub end_active_run : Calls → Bool → Bool → World → Option (Bool × World)
end_active_run c active_free slot_free w =
    if (active_free && w.active) && slot_free
    then end_running c "signal" w.running w
    else some (true, w)

-- `__exit__` with the reason that it makes of the exception's type, if there is one.
unfoldable pub exit : Setting → Calls → String → World → Option (Bool × World)
exit t c reason w =
    let idle = record w { active = false } in
    let given_back = record idle {
      signals = hand_back_deadly_signals t.rules t.ours idle.signals;
    } in
    let (ok, told) = stop_advertising c given_back in
    if c.has_handler
    then (if ok
        then (if c.names_type then end_running c reason told.running told else some (false, told))
        else some (false, told))
    else some (false, idle)
