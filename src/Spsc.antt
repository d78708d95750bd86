-- ===== src/Spsc.antt =====
-- What the crate `rtrb` promises of a bounded single-producer single-consumer ring buffer: values
-- come out in the order in which they went in, and a push fails exactly on a full buffer.
-- The crate is not part of the repository, so the models take it as an argument.
use trace.Prelude.{ℕ, ◌≤◌, ◌<◌, ◌≡◌, Option, none, some, List, [], ◌∷◌, ◌++◌, length}

pub record Spsc (A : Type 0) : Type 1 where
  pub Chan : Type 0
  pub create : ℕ → Chan
  pub push : A → Chan → Option Chan  -- `none` is `PushError::Full`, which hands the value back
  pub pop : Chan → Option (A × Chan)
  pub contents : Chan → List A
  pub capacity : Chan → ℕ
  pub contents-create : (n : ℕ) → contents (create n) ≡ []
  pub capacity-create : (n : ℕ) → capacity (create n) ≡ n
  pub push_room :
      (a : A) (c : Chan)
      → length (contents c) < capacity c
      → (d : Chan) × (push a c ≡ some d)
        × (contents d ≡ contents c ++ a ∷ [])
        × (capacity d ≡ capacity c)
  pub push_full : (a : A) (c : Chan) → capacity c ≤ length (contents c) → push a c ≡ none
  pub pop_cons :
      (a : A) (rest : List A) (c : Chan)
      → contents c ≡ a ∷ rest
      → (d : Chan) × (pop c ≡ some (a, d)) × (contents d ≡ rest) × (capacity d ≡ capacity c)
  pub pop_nil : (c : Chan) → contents c ≡ [] → pop c ≡ none
