-- ===== src/Intern.antt =====
-- crates/py/src/intern.rs: ids for code objects, given out again once no trace can mention them.
-- A hash map is a list of pairs in which no key stands twice. The attributes of the code object come
-- from Python: `insert` takes the `CodeInfo` made of them.
pub mod Live
pub mod Fresh
use trace.Prelude.{
  ℕ, ◌%◌, ◌^◌, Bool, true, false, Option, none, some, List, [], ◌∷◌, ◌++◌, ltb, ◌==◌, if◌then◌else◌,
}
use trace.Prelude.{length, get_elem?, set, last_or, suc, zero}
use trace.Sink.{CodeInfo}

-- `InternerInner`, with the capacity of its `Interner`.
pub record Interner : Type 0 where
  pub keys : List (ℕ × ℕ)  -- `map`
  pub info : List CodeInfo
  pub free : List (ℕ × ℕ)
  pub capacity : ℕ

abbrev pub find : ℕ → List (ℕ × ℕ) → Option ℕ
find key [] = none
find key ((k, id) ∷ keys) = if k == key then some id else find key keys

abbrev pub remove : ℕ → List (ℕ × ℕ) → List (ℕ × ℕ)
remove key [] = []
remove key ((k, id) ∷ keys) = if k == key then keys else (k, id) ∷ remove key keys

unfoldable pub lookup : ℕ → Interner → Option ℕ
lookup key i = find key i.keys

forget_found : Option ℕ → ℕ → ℕ → Interner → Bool × Interner
forget_found none key freed_at_ticks i = (false, i)
forget_found (some id) key freed_at_ticks i =
    (true, record i { keys = remove key i.keys; free = i.free ++ (id, freed_at_ticks) ∷ [] })

unfoldable pub forget : ℕ → ℕ → Interner → Bool × Interner
unfolding forget_found
forget key freed_at_ticks i = forget_found (find key i.keys) key freed_at_ticks i

-- `iter().position(|(_, freed_at)| freed_at < recycle_floor)`
abbrev pub position : ℕ → List (ℕ × ℕ) → Option ℕ
position recycle_floor [] = none
position recycle_floor ((_, freed_at) ∷ free) =
    let later = position recycle_floor free in
    if ltb freed_at recycle_floor
    then some 0
    else elim later [ none ↦ none | some slot ↦ some (suc slot) ]

abbrev pub all_but_last : List (ℕ × ℕ) → List (ℕ × ℕ)
all_but_last [] = []
all_but_last (x ∷ []) = []
all_but_last (x ∷ y ∷ xs) = x ∷ all_but_last (y ∷ xs)

abbrev pub last_first : List (ℕ × ℕ) → List (ℕ × ℕ)
last_first [] = []
last_first (x ∷ xs) = last_or x xs ∷ all_but_last (x ∷ xs)

-- What `Vec::swap_remove` leaves: the last element takes the place of the one removed.
abbrev pub swap_remove : List (ℕ × ℕ) → ℕ → List (ℕ × ℕ)
swap_remove [] slot = []
swap_remove (x ∷ xs) zero = last_first xs
swap_remove (x ∷ xs) (suc slot) = x ∷ swap_remove xs slot

-- The id at a place of the free list is given out again. `info[id]` panics where `id` is past the end;
-- `set` changes nothing there.
recycle : Option (ℕ × ℕ) → ℕ → CodeInfo → Interner → Option (ℕ × Interner)
recycle none slot info i = none
recycle (some (id, _)) slot info i =
    some (id, record i { free = swap_remove i.free slot; info = set i.info id info })

-- An id for a key that has none; `none` where the function returns early, with nothing changed.
fresh_id : CodeInfo → ℕ → Interner → Option (ℕ × Interner)
unfolding recycle
fresh_id info recycle_floor i =
    if ltb (length i.info % 2 ^ 32) i.capacity
    then some (length i.info % 2 ^ 32, record i { info = i.info ++ info ∷ [] })
    else elim (position recycle_floor i.free) [
      | none ↦ none
      | some slot ↦ recycle (get_elem? i.free slot) slot info i
    ]

entered : ℕ → Interner → Option (ℕ × Interner) → Option ℕ × Interner
entered key i none = (none, i)
entered key i (some (id, j)) = (some id, record j { keys = (key, id) ∷ j.keys })

known : ℕ → CodeInfo → ℕ → Interner → Option ℕ → Option ℕ × Interner
unfolding entered fresh_id
known key info recycle_floor i (some id) = (some id, i)
known key info recycle_floor i none = entered key i (fresh_id info recycle_floor i)

unfoldable pub insert : ℕ → CodeInfo → ℕ → Interner → Option ℕ × Interner
unfolding known
insert key info recycle_floor i = known key info recycle_floor i (find key i.keys)

unfoldable pub code : ℕ → Interner → Option CodeInfo
code id i = get_elem? i.info id
