-- ===== src/Examples/Codes.antt =====
-- A code cache with one entry, and ids of two code objects, of which one was freed.
use trace.Prelude.{ℕ, ◌≡◌, ◌⊎◌, none, some, [], ◌∷◌, arith}
use trace.Sink.{default_info}
use trace.Intern.{Interner, lookup, insert}
use trace.Intern.Live.{IsValid}
use trace.Intern.Fresh.{Keeps, Answer, insert-IsValid}

-- Key 11 has id 0; id 1 was freed at tick 5.
abbrev pub two_codes : Interner
two_codes = record {
  keys = (11, 0) ∷ [];
  info = default_info ∷ default_info ∷ [];
  free = (1, 5) ∷ [];
  capacity = 2;
}

pub two_codes-IsValid : IsValid two_codes
two_codes-IsValid = record {
  once = λ id. ground arith;
  fits = omega arith;
  single = λ key. ground arith;
  small = omega arith;
}

insert-IsValid_example :
    let (result, j) = insert 12 default_info 6 two_codes in
    IsValid j
    × (lookup 12 j ≡ result)
    × Keeps 12 two_codes j
    × (((id : ℕ) × (lookup 12 two_codes ≡ some id) × (result ≡ some id) × (j ≡ two_codes))
        ⊎ ((lookup 12 two_codes ≡ none) × Answer two_codes default_info 6 result j))
insert-IsValid_example = insert-IsValid two_codes 12 default_info 6 two_codes-IsValid
