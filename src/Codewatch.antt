-- ===== src/Codewatch.antt =====
-- crates/py/src/codewatch.rs: what the interpreter's notice of a freed code object does.
-- `watched` holds the interners of the runs that are still alive, each with a reading of its clock.
pub mod Freed
use trace.Prelude.{ℕ, ◌+◌, ◌%◌, ◌^◌, Bool, false, ◌||◌, not, List, [], ◌∷◌, ◌==◌, if◌then◌else◌}
use trace.Intern.{Interner, forget}

abbrev pub code_event_destroy : ℕ
code_event_destroy = 1

-- The loop over the states: whether any of them knew the code object, and the states behind it.
unfoldable pub forget_all : ℕ → List (Interner × ℕ) → Bool × List (Interner × ℕ)
forget_all key [] = (false, [])
forget_all key ((i, raw) ∷ watched) =
    let (knew, j) = forget key raw i in
    let (later, rest) = forget_all key watched in (knew || later, (j, raw) ∷ rest)

-- `on_code_event`, with the generation before and after it.
unfoldable pub on_code_event : ℕ → ℕ → List (Interner × ℕ) → ℕ → List (Interner × ℕ) × ℕ
on_code_event event key watched generation =
    if not (event == code_event_destroy)
    then (watched, generation)
    else (let (forgotten, after) = forget_all key watched in
        (after, if forgotten then (generation + 1) % 2 ^ 64 else generation))
