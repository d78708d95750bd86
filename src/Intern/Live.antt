-- ===== src/Intern/Live.antt =====
-- Ids in use and free ids, for crates/py/src/intern.rs.
use trace.Prelude.{
  ℕ, ◌+◌, ◌^◌, ◌≤◌, ◌<◌, ◌≡◌, ◌≢◌, refl, true, false, none, some, List, [], ◌∷◌, ltb, ◌==◌,
  if◌then◌else◌,
}
use trace.Prelude.{length, get_elem?, last_or, suc, zero, arith, sum_of, sum_of-append, ◌↔◌}
use trace.Intern.{
  Interner, find, remove, position, all_but_last, last_first, swap_remove, lookup, forget,
}
use trace.Prelude.{Bool-cases, inl, Option-cases, sym, inr, some-injective, tests, none-ne-some}

abbrev pub one : ℕ → ℕ → ℕ
one id n = if n == id then 1 else 0

-- How often an id is in use, and how often it is free.
abbrev pub used : ℕ → List (ℕ × ℕ) → ℕ
used id keys = sum_of (λ k. one id (k.1)) keys

abbrev pub freed : ℕ → List (ℕ × ℕ) → ℕ
freed id free = sum_of (λ k. one id (k.0)) free

abbrev pub below : ℕ → ℕ → ℕ
below id n = if ltb id n then 1 else 0

-- Each id that has an info is either that of one key, or stands once in the free list; no other is
-- either. There are no more of them than the capacity, which is below 2 ^ 32. No key stands twice.
pub record IsValid (i : Interner) : Type 0 where
  pub once : (id : ℕ) → used id i.keys + freed id i.free ≡ below id (length i.info)
  pub fits : length i.info ≤ i.capacity
  pub single : (key : ℕ) → freed key i.keys ≤ 1
  pub small : i.capacity < 2 ^ 32

freed-all_but_last :
    (id : ℕ) (x : ℕ × ℕ) (xs : List (ℕ × ℕ))
    → freed id (all_but_last (x ∷ xs)) + one id ((last_or x xs).0) ≡ freed id (x ∷ xs)
freed-all_but_last id x [] = omega arith
freed-all_but_last id x (y ∷ xs) = omega (arith, freed-all_but_last id y xs)

freed-last_first : (id : ℕ) (xs : List (ℕ × ℕ)) → freed id (last_first xs) ≡ freed id xs
freed-last_first id [] = refl
freed-last_first id (x ∷ xs) = omega (arith, freed-all_but_last id x xs)

pub freed-swap_remove :
    (id n at slot : ℕ) (free : List (ℕ × ℕ))
    → get_elem? free slot ≡ some (n, at)
    → freed id (swap_remove free slot) + one id n ≡ freed id free
freed-swap_remove id n at slot [] e = cc
freed-swap_remove id n at zero ((m, a) ∷ free) e =
    let q : n ≡ m = cc in rw q (omega (arith, freed-last_first id free))
freed-swap_remove id n at (suc slot) (x ∷ free) e =
    omega (arith, freed-swap_remove id n at slot free e)

used-remove :
    (id key n : ℕ) (keys : List (ℕ × ℕ))
    → find key keys ≡ some n
    → used id (remove key keys) + one id n ≡ used id keys
used-remove id key n [] e = cc
used-remove id key n ((k, m) ∷ keys) e = ground (arith, used-remove id key n keys)

used-find : (key n : ℕ) (keys : List (ℕ × ℕ)) → find key keys ≡ some n → 1 ≤ used n keys
used-find key n [] e = cc
used-find key n ((k, m) ∷ keys) e = ground (arith, used-find key n keys)

pub position_lem :
    (floor : ℕ) (free : List (ℕ × ℕ)) (slot : ℕ)
    → position floor free ≡ some slot
    → (n : ℕ) × (at : ℕ) × (get_elem? free slot ≡ some (n, at)) × (at < floor) × (1 ≤ freed n free)
position_lem floor [] slot e = cc
position_lem floor ((n, at) ∷ free) slot e = elim (Bool-cases (ltb at floor)) [
  | inl early ↦
      let q : slot ≡ 0 = sym (some-injective _ _ (rw early at e)) in
      (n, at, rw q refl, omega tests, ground arith)
  | inr late ↦ elim (Option-cases (position floor free)) [
    | inl nothing ↦ absurd (none-ne-some _ (rw (late, nothing) at e))
    | inr (s, found) ↦
        let q : slot ≡ suc s = sym (some-injective _ _ (rw (late, found) at e)) in
        let (m, a, there, before, stands) = position_lem floor free s found in
        (m, a, rw q there, before, omega arith)
  ]
]

find-remove_ne :
    (key other : ℕ) (keys : List (ℕ × ℕ))
    → key ≢ other
    → find other (remove key keys) ≡ find other keys
find-remove_ne key other [] h = refl
find-remove_ne key other ((k, m) ∷ keys) h = ground (arith, find-remove_ne key other keys h)

freed-remove :
    (key k n : ℕ) (keys : List (ℕ × ℕ))
    → find key keys ≡ some n
    → freed k (remove key keys) + one k key ≡ freed k keys
freed-remove key k n [] e = cc
freed-remove key k n ((m, id) ∷ keys) e = ground (arith, freed-remove key k n keys)

pub find-none : (key : ℕ) (keys : List (ℕ × ℕ)) → (find key keys ≡ none) ↔ (freed key keys ≡ 0)
find-none key [] = (λ e. refl, λ e. refl)
find-none key ((k, id) ∷ keys) = ground (arith, find-none key keys)

-- A key's id has an info and is not free.
pub found_lem :
    (i : Interner) (key id : ℕ)
    → IsValid i
    → find key i.keys ≡ some id
    → (id < length i.info) × (freed id i.free ≡ 0) × (used id i.keys ≡ 1)
found_lem i key id v e = ground (arith, v.once id, used-find key id i.keys e)

-- What `forget` does: a key that has an id has none afterwards, all other keys keep theirs, and every
-- id keeps its info.
pub forget-IsValid :
    (i : Interner) (key freed_at : ℕ)
    → IsValid i
    → let (was_known, j) = forget key freed_at i in
      IsValid j
      × (j.info ≡ i.info)
      × (lookup key j ≡ none)
      × ((other : ℕ) → key ≢ other → lookup other j ≡ lookup other i)
      × (was_known ≡ elim (find key i.keys) [ none ↦ false | some id ↦ true ])
unfolding forget lookup
forget-IsValid i key freed_at v = elim (Option-cases (find key i.keys)) [
  | inl unknown ↦ rw unknown (v, refl, unknown, λ other h. refl, refl)
  | inr (id, e) ↦ rw e (
    record {
      once = λ n. omega (
        arith,
        v.once n,
        used-remove n key id i.keys e,
        sum_of-append (λ (k : ℕ × ℕ). one n (k.0)) i.free ((id, freed_at) ∷ []),
      );
      fits = v.fits;
      single = λ k. omega (arith, v.single k, freed-remove key k id i.keys e);
      small = v.small;
    },
    refl,
    (find-none key (remove key i.keys)).1
        (ground (arith, v.single key, freed-remove key key id i.keys e)),
    λ other h. find-remove_ne key other i.keys h,
    refl,
  )
]

-- A key that is not known changes nothing.
pub forget-false :
    (i : Interner) (key freed_at : ℕ)
    → (forget key freed_at i).0 ≡ false
    → (forget key freed_at i).1 ≡ i
unfolding forget
forget-false i key freed_at e = elim (Option-cases (find key i.keys)) [
  | inl unknown ↦ rw unknown
  | inr (id, found) ↦ absurd (true_false (rw found at e))
]
  where
    true_false : true ≡ false → ⊥
    true_false h = cc
