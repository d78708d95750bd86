-- ===== src/Examples/Fifo.antt =====
-- A bounded first-in-first-out list, which keeps all that `Spsc` promises.
use trace.Prelude.{ℕ, refl, Option, none, some, List, [], ◌∷◌, ◌++◌, length}
use trace.Prelude.{ltb, if◌then◌else◌, ap, lt→ltb, le→ltb}
use trace.Spsc.{Spsc}

abbrev pub offer : {A : Type 0} → A → ℕ × List A → Option (ℕ × List A)
offer a (room, xs) = if ltb (length xs) room then some (room, xs ++ a ∷ []) else none

abbrev pub take_first : {A : Type 0} → ℕ × List A → Option (A × (ℕ × List A))
take_first (room, []) = none
take_first (room, x ∷ xs) = some (x, (room, xs))

abbrev pub fifo : (A : Type 0) → Spsc A
fifo A = record {
  Chan = ℕ × List A;
  create = λ n. (n, []);
  push = offer;
  pop = take_first;
  contents = λ c. c.1;
  capacity = λ c. c.0;
  contents-create = λ n. refl;
  capacity-create = λ n. refl;
  push_room = λ a c h. ((c.0, c.1 ++ a ∷ []), rw (lt→ltb (length (c.1)) (c.0) h), refl, refl);
  push_full = λ a c h. rw (le→ltb (length (c.1)) (c.0) h);
  pop_cons = λ a rest c e. ((c.0, rest), ap (λ xs. take_first (c.0, xs)) e, refl, refl);
  pop_nil = λ c e. ap (λ xs. take_first (c.0, xs)) e;
}
