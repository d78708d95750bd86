-- ===== src/Monitoring/Caches.antt =====
-- What the caches of a thread may say of code objects, for crates/py/src/monitoring.rs.
use trace.Prelude.{
  ℕ, ◌≡◌, ◌≢◌, none, some, none-ne-some, sym, ◌∙◌, length, arith, ◌==◌, if◌then◌else◌, ℕ_discrete,
}
use trace.Codecache.{
  CodeCache, empty_cache, get, put, slot_of, slot_count, get-put, get-empty_cache, put_null,
}
use trace.Intern.{Interner, lookup, insert}
use trace.Tls.{Hot, not_cached}
use trace.Prelude.{Option, Option-cases, inl, inr}
use trace.Intern.Live.{IsValid}
use trace.Monitoring.{find_id, interned, cached, CodeInfo}
use trace.Intern.Fresh.{insert-IsValid}

-- The ids in a cache are those of the interner.
abbrev pub Agrees : Interner → CodeCache → Type 0
Agrees i codes = (key id : ℕ) → get key codes ≡ some id → lookup key i ≡ some id

-- No key loses its id.
abbrev pub Grows : Interner → Interner → Type 0
Grows i j = (key id : ℕ) → lookup key i ≡ some id → lookup key j ≡ some id

-- The caches of a thread, if they are of this run and generation.
pub record IsCoherent (generation run : ℕ) (i : Interner) (h : Hot) (codes : CodeCache)
    : Type 0 where
  pub sized : length codes.slots ≡ slot_count
  pub cache : h.queue_id ≡ run → h.code_gen ≡ generation → Agrees i codes
  pub last :
      h.queue_id ≡ run
      → h.code_gen ≡ generation
      → h.last_code_key ≢ not_cached
      → lookup h.last_code_key i ≡ some h.last_code_id

pub empty_cache-Agrees : (i : Interner) → Agrees i empty_cache
empty_cache-Agrees i key id e = absurd (none-ne-some id (sym (get-empty_cache key) ∙ e))

pub put-Agrees :
    (i : Interner) (codes : CodeCache) (key id : ℕ)
    → length codes.slots ≡ slot_count
    → Agrees i codes
    → lookup key i ≡ some id
    → Agrees i (put key id codes) × (length (put key id codes).slots ≡ slot_count)
put-Agrees i codes key id sized v e = elim (ℕ_discrete key 0) [
  | yes null ↦ rw (null, put_null) (v, sized)
  | no real ↦ (
    λ other n f. go other n f ((get-put key id other codes sized real).0),
    (get-put key id 0 codes sized real).1,
  )
]
  where
    go :
        (other n : ℕ)
        → get other (put key id codes) ≡ some n
        → get other (put key id codes) ≡ (
            if other == 0
            then none
            else if other == key
            then some id
            else if slot_of other == slot_of key
            then none
            else get other codes)
        → lookup other i ≡ some n
    go other n f g = ground (arith, e, v other n, f, g)

-- What stands behind the search of the cache and the interner.
pub record IsFound (key : ℕ) (i : Interner) (result : Option ℕ) (codes : CodeCache) (j : Interner)
    : Type 0 where
  pub valid : IsValid j
  pub grows : Grows i j
  pub sized : length codes.slots ≡ slot_count
  pub agrees : Agrees j codes
  pub found : (id : ℕ) → result ≡ some id → lookup key j ≡ some id

pub find_id-IsFound :
    (key : ℕ) (info : CodeInfo) (floor : ℕ) (codes : CodeCache) (i : Interner) (o : Option ℕ)
    → get key codes ≡ o
    → length codes.slots ≡ slot_count
    → Agrees i codes
    → IsValid i
    → let (result, after, j) = find_id o key info floor codes i in IsFound key i result after j
unfolding find_id interned cached
find_id-IsFound key info floor codes i (some id) e sized v valid = record {
  valid = valid;
  grows = λ k n h. h;
  sized = sized;
  agrees = v;
  found = λ n h. v key n (e ∙ h);
}
find_id-IsFound key info floor codes i none e sized v valid = elim (Option-cases (lookup key i)) [
  | inr (id, f) ↦
      let (agrees, size) = put-Agrees i codes key id sized v f in
      rw f (record {
        valid = valid;
        grows = λ k n h. h;
        sized = size;
        agrees = agrees;
        found = λ n h. f ∙ h;
      })
  | inl unknown ↦
      let (valid', there, keeps, _) = insert-IsValid i key info floor valid in
      let grows : Grows i (insert key info floor i).1 = λ k n h. elim (ℕ_discrete key k) [
        | yes same ↦ absurd (none-ne-some n (sym unknown ∙ (rw same h)))
        | no apart ↦ (keeps k n apart h).0
      ] in
      rw unknown (entered grows valid' there)
]
  where
    entered :
        Grows i (insert key info floor i).1
        → IsValid (insert key info floor i).1
        → lookup key (insert key info floor i).1 ≡ (insert key info floor i).0
        → IsFound key i
            (insert key info floor i).0
            (cached key (insert key info floor i).0 codes)
            (insert key info floor i).1
    entered grows valid' there = elim (Option-cases ((insert key info floor i).0)) [
      | inl nothing ↦ rw nothing (record {
        valid = valid';
        grows = grows;
        sized = sized;
        agrees = λ k n h. grows k n (v k n h);
        found = λ n h. absurd (none-ne-some n h);
      })
      | inr (id, g) ↦
          let (agrees, size) =
            put-Agrees (insert key info floor i).1 codes key id sized (λ k n h. grows k n (v k n h))
              (there ∙ g) in
          rw g (record {
            valid = valid';
            grows = grows;
            sized = size;
            agrees = agrees;
            found = λ n h. there ∙ g ∙ h;
          })
    ]
