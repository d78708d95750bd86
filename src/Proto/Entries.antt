-- ===== src/Proto/Entries.antt =====
-- The hash maps of crates/proto/src/lib.rs as lists of pairs: what their entries satisfy.
use trace.Proto.{update_in, find_in}
use trace.Varint.{varint, varint-read}
use trace.Prelude.{All, List, [], length, some, true, ℕ, ◌<◌, ◌^◌, ◌≡◌, ◌≤◌}
use trace.Prelude.{none}
use trace.Prelude.{
  Bool-cases, ap, arith, inl, inr, none-ne-some, some-injective, subst, sym, ◌++◌, ◌==◌, ◌∷◌,
}

-- The varint of a number that fits a `u64`.
pub varint_lem :
    (v : ℕ) → v < 2 ^ 64 → (bytes : List ℕ) × (varint v ≡ some bytes) × (length bytes ≤ 10)
varint_lem v h = let (bytes, e, _, _, bound) = varint-read v [] h in (bytes, e, bound)

-- Entries of a map.
pub find_in-All :
    {A : Type 0} (P : A → Type 0) (key : ℕ) (entries : List (ℕ × A)) (a : A)
    → All (λ (e : ℕ × A). P e.1) entries
    → find_in key entries ≡ some a
    → P a
find_in-All P key [] a h e = cc
find_in-All P key ((k, b) ∷ entries) a h e = elim (Bool-cases (k == key)) [
  | inl same ↦ subst P (some-injective _ _ (rw same at e)) (h.0)
  | inr apart ↦ find_in-All P key entries a (h.1) (rw apart at e)
]

pub All-update_in :
    {A : Type 0} (P : A → Type 0) (key : ℕ) (f : A → A) (entries : List (ℕ × A))
    → ((a : A) → P a → P (f a))
    → All (λ (e : ℕ × A). P e.1) entries
    → All (λ (e : ℕ × A). P e.1) (update_in key f entries)
All-update_in P key f [] keeps h = tt
All-update_in P key f ((k, b) ∷ entries) keeps h = elim (Bool-cases (k == key)) [
  | inl same ↦ rw same (keeps b (h.0), h.1)
  | inr apart ↦ rw apart (h.0, All-update_in P key f entries keeps (h.1))
]

pub find_in-update_in :
    {A : Type 0} (key : ℕ) (f : A → A) (entries : List (ℕ × A)) (a : A)
    → find_in key entries ≡ some a
    → find_in key (update_in key f entries) ≡ some (f a)
find_in-update_in key f [] a e = cc
find_in-update_in key f ((k, b) ∷ entries) a e = elim (Bool-cases (k == key)) [
  | inl same ↦ rw (same, same) (ap (λ c. some (f c)) (some-injective _ _ (rw same at e)))
  | inr apart ↦ rw (apart, apart) (find_in-update_in key f entries a (rw apart at e))
]

pub find_in-append :
    {A : Type 0} (key : ℕ) (entries : List (ℕ × A)) (a : A)
    → find_in key entries ≡ none
    → find_in key (entries ++ (key, a) ∷ []) ≡ some a
find_in-append key [] a e = let same : (key == key) ≡ true = ground arith in rw same
find_in-append key ((k, b) ∷ entries) a e = elim (Bool-cases (k == key)) [
  | inl same ↦ absurd (none-ne-some b (sym (rw same at e)))
  | inr apart ↦ rw apart (find_in-append key entries a (rw apart at e))
]
