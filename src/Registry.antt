-- ===== src/Registry.antt =====
-- crates/py/src/threads.rs: the names of the threads that have recorded. A hash map is a list of
-- pairs; the name of the current thread comes from Python, and is empty where Python gives none.
use Prim.Native.String.{String}
use text.Mathlib.Text.{starts_with}
use trace.Prelude.{ℕ, Bool, true, false, ◌||◌, Option, none, some, List, ◌∷◌}
use trace.Sink.{same_text}
use trace.Sink.Threads.{find_name, sorted}
use trace.Prelude.{if◌then◌else◌}

pub record ThreadRegistry : Type 0 where
  pub inner : List (ℕ × String)

ensured : Option String → ℕ → String → ThreadRegistry → Bool × ThreadRegistry
ensured (some known) tid current r = (true, r)
ensured none tid current r =
    if same_text current "" || starts_with current "Dummy-"
    then (false, r)
    else (true, record { inner = (tid, current) ∷ r.inner })

unfoldable pub ensure : ℕ → String → ThreadRegistry → Bool × ThreadRegistry
unfolding ensured
ensure tid current r = ensured (find_name tid r.inner) tid current r

unfoldable pub name : ℕ → ThreadRegistry → Option String
name tid r = find_name tid r.inner

unfoldable pub snapshot : ThreadRegistry → List (ℕ × String)
snapshot r = sorted r.inner
