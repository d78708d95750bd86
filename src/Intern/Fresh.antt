-- ===== src/Intern/Fresh.antt =====
-- `insert` of crates/py/src/intern.rs: a key gets an id, new or recycled.
use trace.Prelude.{
  ℕ, ◌+◌, ◌%◌, ◌^◌, ◌≤◌, ◌<◌, ◌≡◌, ◌≢◌, refl, ◌⊎◌, inl, inr, none, some, [], ◌∷◌, ◌++◌, ltb,
}
use trace.Prelude.{
  length, get_elem?, set, arith, tests, sym, Bool-cases, Option-cases, length-set, length-append,
  get_elem?-append_lt, get_elem?-append_length, get_elem?-set_self, get_elem?-set_ne,
}
use trace.Sink.{CodeInfo}
use trace.Intern.{Interner, position, swap_remove, code, fresh_id, recycle, insert, lookup, Option}
use trace.Intern.Live.{IsValid, used, freed, one, below, position_lem, freed-swap_remove, find-none}
use trace.Intern.{List, known, find, entered, suc, true, false}
use trace.Prelude.{All, none-ne-some, ◌==◌}
use trace.Intern.Live.{found_lem}

-- An id that a key may take: it is of no key, it has the key's info, and every other id keeps its
-- own. It is new, or was freed before the floor.
record IsFresh (i : Interner) (info : CodeInfo) (floor id : ℕ) (j : Interner) : Type 0 where
  pub keys : j.keys ≡ i.keys
  pub unused : used id i.keys ≡ 0
  pub counts : (n : ℕ) → used n i.keys + one n id + freed n j.free ≡ below n (length j.info)
  pub fits : length j.info ≤ j.capacity
  pub capacity : j.capacity ≡ i.capacity
  pub told : code id j ≡ some info
  pub others : (n : ℕ) → n ≢ id → n < length i.info → code n j ≡ code n i
  pub origin :
      (id ≡ length i.info)
      ⊎ ((slot : ℕ) × (at : ℕ) × (get_elem? i.free slot ≡ some (id, at)) × (at < floor))

grown-IsFresh :
    (i : Interner) (info : CodeInfo) (floor : ℕ)
    → IsValid i
    → length i.info < i.capacity
    → IsFresh i info floor (length i.info) (record i { info = i.info ++ info ∷ [] })
unfolding code
grown-IsFresh i info floor v h =
    let longer = length-append i.info (info ∷ []) in
    record {
      keys = refl;
      unused = ground (arith, v.once (length i.info));
      counts = λ n. ground (arith, v.once n, longer);
      fits = omega (arith, longer);
      capacity = refl;
      told = get_elem?-append_length i.info [] info;
      others = λ n ne lt. get_elem?-append_lt i.info (info ∷ []) n lt;
      origin = inl refl;
    }

recycled-IsFresh :
    (i : Interner) (info : CodeInfo) (floor slot id at : ℕ)
    → IsValid i
    → get_elem? i.free slot ≡ some (id, at)
    → at < floor
    → 1 ≤ freed id i.free
    → IsFresh i info floor id
        (record i { free = swap_remove i.free slot; info = set i.info id info })
unfolding code
recycled-IsFresh i info floor slot id at v e before stands =
    let same = length-set i.info id info in
    let less : id < length i.info = ground (arith, v.once id) in
    record {
      keys = refl;
      unused = ground (arith, v.once id);
      counts = λ n. ground (arith, v.once n, same, freed-swap_remove n id at slot i.free e);
      fits = omega (arith, same, v.fits);
      capacity = refl;
      told = get_elem?-set_self i.info id info less;
      others = λ n ne lt. get_elem?-set_ne i.info id n info (λ q. ne (sym q));
      origin = inr (slot, at, e, before);
    }

fresh_id-IsFresh :
    (i : Interner) (info : CodeInfo) (floor : ℕ)
    → IsValid i
    → ((fresh_id info floor i ≡ none)
        × (length i.info ≡ i.capacity)
        × (position floor i.free ≡ none))
      ⊎ ((id : ℕ) × (j : Interner) × (fresh_id info floor i ≡ some (id, j))
          × IsFresh i info floor id j)
unfolding fresh_id recycle
fresh_id-IsFresh i info floor v =
    let small : length i.info % 2 ^ 32 ≡ length i.info = omega (arith, v.fits, v.small) in
    elim (Bool-cases (ltb (length i.info) i.capacity)) [
      | inl room ↦ inr (
        length i.info,
        record i { info = i.info ++ info ∷ [] },
        rw (small, room) refl,
        grown-IsFresh i info floor v (omega tests),
      )
      | inr full ↦ elim (Option-cases (position floor i.free)) [
        | inl nothing ↦ inl (rw (small, full, nothing) refl, omega (tests, v.fits), nothing)
        | inr (slot, e) ↦
            let (id, at, there, before, stands) = position_lem floor i.free slot e in
            inr (
              id,
              record i { free = swap_remove i.free slot; info = set i.info id info },
              rw (small, full, e, there) refl,
              recycled-IsFresh i info floor slot id at v there before stands,
            )
      ]
    ]

position-none :
    (floor : ℕ) (free : List (ℕ × ℕ))
    → position floor free ≡ none
    → All (λ (f : ℕ × ℕ). floor ≤ f.1) free
position-none floor [] e = tt
position-none floor ((n, at) ∷ free) e = elim (Bool-cases (ltb at floor)) [
  | inl early ↦ absurd (none-ne-some 0 (sym (rw early at e)))
  | inr late ↦ elim (Option-cases (position floor free)) [
    | inl nothing ↦ (omega tests, position-none floor free nothing)
    | inr (slot, found) ↦ absurd (none-ne-some (suc slot) (sym (rw (late, found) at e)))
  ]
]

-- What a key that has no id gets, and why.
abbrev pub Answer : Interner → CodeInfo → ℕ → Option ℕ → Interner → Type 0
Answer i info floor none j =
    (j ≡ i) × (length i.info ≡ i.capacity) × All (λ (f : ℕ × ℕ). floor ≤ f.1) i.free
Answer i info floor (some id) j =
    (code id j ≡ some info)
    × ((id ≡ length i.info)
        ⊎ ((slot : ℕ) × (at : ℕ) × (get_elem? i.free slot ≡ some (id, at)) × (at < floor)))

-- Every other key keeps its id, and the id keeps its info.
abbrev pub Keeps : ℕ → Interner → Interner → Type 0
Keeps key i j =
    (other id : ℕ)
    → key ≢ other
    → lookup other i ≡ some id
    → (lookup other j ≡ some id) × (code id j ≡ code id i)

entered-IsValid :
    (i : Interner) (key : ℕ) (info : CodeInfo) (floor id : ℕ) (j : Interner)
    → IsValid i
    → find key i.keys ≡ none
    → IsFresh i info floor id j
    → let q : Interner = record j { keys = (key, id) ∷ j.keys } in
      IsValid q × (lookup key q ≡ some id) × Keeps key i q
unfolding lookup code
entered-IsValid i key info floor id j v unknown f =
    let absent = (find-none key i.keys).0 unknown in
    let yes : (key == key) ≡ true = ground arith in
    (
      record {
        once = λ n. rw f.keys (omega (arith, f.counts n));
        fits = f.fits;
        single = λ k. rw f.keys (ground (arith, v.single k));
        small = rw f.capacity (v.small);
      },
      rw yes refl,
      λ other n ne e.
          let no : (key == other) ≡ false = ground arith in
          let (less, _, stands) = found_lem i other n v e in
          let apart : n ≢ id = λ q. (let z : used n i.keys ≡ 0 = rw q (f.unused) in omega arith) in
          (rw (no, f.keys) e, f.others n apart less),
    )

-- `insert` gives a key that has an id that id and changes nothing. A key that has none gets an id
-- with the info given, either a new one or one that was freed before the floor; or, if all ids are
-- out and every free one was freed at the floor or later, it gets none and nothing changes. Every
-- other key keeps its id, and that id its info.
pub insert-IsValid :
    (i : Interner) (key : ℕ) (info : CodeInfo) (floor : ℕ)
    → IsValid i
    → let (result, j) = insert key info floor i in
      IsValid j
      × (lookup key j ≡ result)
      × Keeps key i j
      × (((id : ℕ) × (lookup key i ≡ some id) × (result ≡ some id) × (j ≡ i))
          ⊎ ((lookup key i ≡ none) × Answer i info floor result j))
unfolding insert lookup known entered code
insert-IsValid i key info floor v = elim (Option-cases (find key i.keys)) [
  | inr (id, e) ↦ rw e (v, e, λ other n ne h. (h, refl), inl (id, refl, refl, refl))
  | inl unknown ↦ elim (fresh_id-IsFresh i info floor v) [
    | inl (e, full, nothing) ↦
        rw (unknown, e)
          (
            v,
            unknown,
            λ other n ne h. (h, refl),
            inr (refl, (refl, full, position-none floor i.free nothing)),
          )
    | inr (id, j, e, f) ↦
        let (valid, there, keeps) = entered-IsValid i key info floor id j v unknown f in
        rw (unknown, e) (valid, there, keeps, inr (refl, (f.told, f.origin)))
  ]
]
