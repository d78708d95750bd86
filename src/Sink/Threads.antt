-- ===== src/Sink/Threads.antt =====
-- crates/core/src/sink.rs, `ThreadTable`: the names of threads. A hash map is a list of pairs.
use Prim.Native.String.{String}
use trace.Prelude.{ℕ, ◌≡◌, refl, Option, none, some, List, [], ◌∷◌, ◌==◌, leb, if◌then◌else◌, arith}

pub record ThreadTable : Type 0 where
  pub names : List (ℕ × String)

abbrev pub put_name : ℕ → String → List (ℕ × String) → List (ℕ × String)
put_name tid name [] = (tid, name) ∷ []
put_name tid name ((t, old) ∷ names) =
    if t == tid then (t, name) ∷ names else (t, old) ∷ put_name tid name names

abbrev pub find_name : ℕ → List (ℕ × String) → Option String
find_name tid [] = none
find_name tid ((t, name) ∷ names) = if t == tid then some name else find_name tid names

unfoldable pub insert : ℕ → String → ThreadTable → ThreadTable
insert tid name t = record { names = put_name tid name t.names }

unfoldable pub name : ℕ → ThreadTable → Option String
name tid t = find_name tid t.names

-- `sort_by_key`, stable, by the thread.
abbrev pub insert_sorted : ℕ × String → List (ℕ × String) → List (ℕ × String)
insert_sorted x [] = x ∷ []
insert_sorted x (y ∷ names) = if leb x.0 y.0 then x ∷ y ∷ names else y ∷ insert_sorted x names

abbrev pub sorted : List (ℕ × String) → List (ℕ × String)
sorted [] = []
sorted (x ∷ names) = insert_sorted x (sorted names)

unfoldable pub snapshot : ThreadTable → List (ℕ × String)
snapshot t = sorted t.names

find-put_name :
    (tid other : ℕ) (text : String) (names : List (ℕ × String))
    → find_name other (put_name tid text names)
      ≡ (if tid == other then some text else find_name other names)
find-put_name tid other text [] = refl
find-put_name tid other text ((t, old) ∷ names) = ground (arith, find-put_name tid other text names)

-- After `insert tid text` the table gives `text` for `tid`, and for every other thread what it gave
-- before.
pub name-insert :
    (tid other : ℕ) (text : String) (t : ThreadTable)
    → name other (insert tid text t) ≡ (if tid == other then some text else name other t)
unfolding name insert
name-insert tid other text t = find-put_name tid other text t.names
