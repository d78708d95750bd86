-- ===== src/Codecache.antt =====
-- crates/core/src/codecache.rs: a direct-mapped cache from code addresses to ids.
use trace.Prelude.{
  ℕ, ◌*◌, ◌/◌, ◌%◌, ◌^◌, ◌<◌, ◌≡◌, ◌≢◌, Option, none, some, List, length, get_elem?, set, replicate,
}
use trace.Prelude.{
  ◌==◌, if◌then◌else◌, arith, Bool-cases, inl, inr, get_elem?-set_self, get_elem?-set_ne,
  length-set,
}
use trace.Prelude.{◌-◌, ℕ_discrete, false, ◌∙◌, true, sym, suc, length-replicate}
use trace.Prelude.{refl, zero}

-- `SLOTS`
abbrev pub slot_count : ℕ
slot_count = 256

abbrev empty_key : ℕ
empty_key = 0

abbrev golden : ℕ
golden = 0x9e37_79b9_7f4a_7c15

pub record Slot : Type 0 where
  pub key : ℕ
  pub id : ℕ

pub record CodeCache : Type 0 where
  pub slots : List Slot

-- `EMPTY`
unfoldable pub empty_cache : CodeCache
empty_cache = record { slots = replicate slot_count (record { key = empty_key; id = 0 }) }

-- A `usize` has 64 bits, and 256 has 8 trailing zeros.
unfoldable pub slot_of : ℕ → ℕ
slot_of key = key * golden % 2 ^ 64 / 2 ^ (64 - 8)

-- The id in the slot, if it holds the key; `none` too for an index out of bounds, which no key has.
found : ℕ → Option Slot → Option ℕ
found key none = none
found key (some slot) = if slot.key == key then some slot.id else none

unfoldable pub get : ℕ → CodeCache → Option ℕ
unfolding found
get key cache = if key == empty_key then none else found key (get_elem? cache.slots (slot_of key))

unfoldable pub put : ℕ → ℕ → CodeCache → CodeCache
put key id cache =
    if key == empty_key
    then cache
    else record cache { slots = set cache.slots (slot_of key) (record { key = key; id = id }) }

slot_of-lt : (key : ℕ) → slot_of key < slot_count
unfolding slot_of
slot_of-lt key = omega arith

found-set :
    (slots : List Slot) (key id other : ℕ)
    → length slots ≡ slot_count
    → found other
        (get_elem? (set slots (slot_of key) (record { key = key; id = id })) (slot_of other))
      ≡ (if other == key
          then some id
          else if slot_of other == slot_of key
          then none
          else found other (get_elem? slots (slot_of other)))
unfolding found
found-set slots key id other full =
    let slot : Slot = record { key = key; id = id } in
    let same = get_elem?-set_self slots (slot_of key) slot (omega (arith, slot_of-lt key)) in
    let apart = get_elem?-set_ne slots (slot_of key) (slot_of other) slot in
    elim (ℕ_discrete other key) [
      | yes e ↦ let k : (key == key) ≡ true = ground arith in rw e (rw (same, k))
      | no n ↦ elim (ℕ_discrete (slot_of other) (slot_of key)) [
        | yes e ↦
            let f : (other == key) ≡ false = ground arith in
            let g : (key == other) ≡ false = ground arith in
            let t : (slot_of key == slot_of key) ≡ true = ground arith in rw (e, same, f, g, t)
        | no m ↦
            let f : (other == key) ≡ false = ground arith in
            let g : (slot_of other == slot_of key) ≡ false = ground arith in
            rw (apart (λ h. m (sym h)), f, g)
      ]
    ]

-- After `put key id` the cache gives `id` for `key`, nothing for another key of the same slot, and
-- what it gave before for a key of any other slot; the null key is never cached.
pub get-put :
    (key id other : ℕ) (cache : CodeCache)
    → length cache.slots ≡ slot_count
    → key ≢ 0
    → (get other (put key id cache) ≡ (
        if other == 0
        then none
        else if other == key
        then some id
        else if slot_of other == slot_of key
        then none
        else get other cache))
      × (length (put key id cache).slots ≡ slot_count)
unfolding get put found
get-put key id other cache full real =
    let kept = length-set cache.slots (slot_of key) (record { key = key; id = id }) in
    let real_key : (key == 0) ≡ false = ground arith in
    rw real_key (
      (elim (Bool-cases (other == 0)) [
        | inl null ↦ rw null
        | inr other_key ↦ rw other_key (found-set cache.slots key id other full)
      ]),
      kept ∙ full,
    )

found-replicate :
    (n key i : ℕ)
    → key ≢ 0
    → found key (get_elem? (replicate n (record { key = empty_key; id = 0 })) i) ≡ none
unfolding found
found-replicate zero key i real = refl
found-replicate (suc n) key zero real = ground arith
found-replicate (suc n) key (suc i) real = found-replicate n key i real

-- The empty cache gives nothing for any key.
pub get-empty_cache : (key : ℕ) → get key empty_cache ≡ none
unfolding get empty_cache
get-empty_cache key = elim (Bool-cases (key == empty_key)) [
  | inl null ↦ rw null
  | inr real ↦ rw real (found-replicate slot_count key (slot_of key) (λ e. ground arith))
]

pub length-empty_cache : length empty_cache.slots ≡ slot_count
unfolding empty_cache
length-empty_cache = length-replicate {A = Slot} slot_count (record { key = empty_key; id = 0 })

-- The null key changes nothing.
pub put_null : (id : ℕ) (cache : CodeCache) → put 0 id cache ≡ cache
unfolding put
put_null id cache = refl
