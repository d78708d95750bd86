-- ===== src/Tracer.antt =====
-- crates/py/src/tracer.rs, the handlers of the deadly signals: they are replaced while a run goes on.
-- The hooks around a fork, and a run from its start to its end, are in the modules below it.
pub mod Handlers
pub mod Forks
pub mod Runs
use trace.Prelude.{
  Bool, List, Option, [], if◌then◌else◌, none, not, retain, some, ℕ, ◌&&◌, ◌++◌, ◌==◌, ◌||◌, ◌∷◌,
}

-- A handler is its identity. `handler` is what Python has installed for the number of a signal, and
-- `replaced` is `REPLACED_HANDLERS`.
pub record Signals : Type 0 where
  pub handler : ℕ → ℕ
  pub replaced : List (ℕ × ℕ)

-- What the module `signal` allows: whether `getsignal` gives the handler of a number, and whether
-- `signal` installs one.
pub record Rules : Type 0 where
  pub reads : ℕ → Bool
  pub installs : ℕ → ℕ → Bool

abbrev pub installed : ℕ → ℕ → (ℕ → ℕ) → ℕ → ℕ
installed number handler handlers n = if n == number then handler else handlers n

module _ (rules : Rules) (ours : ℕ) where
  open rules use {reads, installs}

  -- The number of a signal that the platform has.
  unfoldable pub take_over : ℕ → Signals → Signals
  take_over number s =
      let previous = s.handler number in
      if not (reads number) || previous == ours || not (installs number ours) then s else record {
        handler = installed number ours s.handler;
        replaced = retain (λ e. not (e.0 == number)) s.replaced ++ (number, previous) ∷ [];
      }

  -- The names of `DEADLY_SIGNALS` in their order, each with its number or `none`.
  unfoldable pub take_over_deadly_signals : List (Option ℕ) → Signals → Signals
  take_over_deadly_signals [] s = s
  take_over_deadly_signals (none ∷ names) s = take_over_deadly_signals names s
  take_over_deadly_signals (some number ∷ names) s =
      take_over_deadly_signals names (take_over number s)

  unfoldable pub hand_back : ℕ → ℕ → (ℕ → ℕ) → ℕ → ℕ
  hand_back number previous handlers =
      if reads number && handlers number == ours && installs number previous
      then installed number previous handlers
      else handlers

  unfoldable pub hand_back_from : List (ℕ × ℕ) → (ℕ → ℕ) → ℕ → ℕ
  hand_back_from [] handlers = handlers
  hand_back_from ((number, previous) ∷ replaced) handlers =
      hand_back_from replaced (hand_back number previous handlers)

  unfoldable pub hand_back_deadly_signals : Signals → Signals
  hand_back_deadly_signals s = record {
    handler = hand_back_from s.replaced s.handler;
    replaced = [];
  }

-- `_handle_deadly_signal`: what the handler does of a signal.
pub data Reaction : Type 0 where
  ignored : Reaction
  called : ℕ → Reaction
  raised_again : ℕ → Bool → Reaction  -- whether the run in progress was ended before

unfoldable pub previous_of : ℕ → List (ℕ × ℕ) → Option ℕ
previous_of number [] = none
previous_of number ((n, handler) ∷ replaced) =
    if n == number then some handler else previous_of number replaced

-- `default` is `SIG_DFL`, and `callable` tells of a handler.
unfoldable pub handle_deadly_signal : (ℕ → Bool) → ℕ → ℕ → Signals → Reaction
handle_deadly_signal callable default number s = elim (previous_of number s.replaced) [
  | none ↦ ignored
  | some previous ↦
      if callable previous then called previous else raised_again previous (previous == default)
]
