-- ===== src/Monitoring/Coherence.antt =====
-- The caches of a thread against the interner, over `resolve` of crates/py/src/monitoring.rs.
use trace.Prelude.{ℕ, ◌≡◌, ◌≢◌, none, some, sym, ◌∙◌, length, arith, ◌==◌, if◌then◌else◌}
use trace.Codecache.{CodeCache, slot_count}
use trace.Intern.{Interner, lookup}
use trace.Tls.{Hot, not_cached}
use trace.Prelude.{Option, inl, inr, ◌⊎◌}
use trace.Intern.Live.{IsValid}
use trace.Monitoring.{enter_run, enter_generation, ensure_name}
use trace.Prelude.{Bool-cases, refl}
use trace.Monitoring.{resolve_cold, enter_thread, remember, Moment, String, ThreadRegistry, State}
use trace.Prelude.{Bool, false, true, ◌||◌}
use trace.Codecache.{length-empty_cache}
use trace.Prelude.{◌&&◌}
use trace.Monitoring.{resolve}
use trace.Monitoring.Caches.{
  Agrees, Grows, IsCoherent, empty_cache-Agrees, IsFound, find_id-IsFound,
}

-- The cache that `resolve_cold` searches is of this run and generation.
entered_lem :
    (generation run : ℕ) (i : Interner) (h : Hot) (codes : CodeCache)
    → IsCoherent generation run i h codes
    → let (hot1, codes1) = enter_run run h codes in
      let (hot2, codes2) = enter_generation generation hot1 codes1 in
      (length codes2.slots ≡ slot_count)
      × Agrees i codes2
      × (hot2.code_gen ≡ generation)
      × (hot2.queue_id ≡ h.queue_id)
      × (hot2.last_code_id ≡ h.last_code_id)
      × ((hot2.last_code_key ≡ not_cached)
          ⊎ ((hot2.last_code_key ≡ h.last_code_key) × (h.queue_id ≡ run)))
unfolding enter_run enter_generation
entered_lem generation run i h codes c = elim (Bool-cases (h.queue_id == run)) [
  | inl same ↦ elim (Bool-cases (h.code_gen == generation)) [
    | inl now ↦
        rw (same, now)
          (
            c.sized,
            c.cache (ground arith) (ground arith),
            ground arith,
            refl,
            refl,
            inr (refl, ground arith),
          )
    | inr stale ↦
        rw (same, stale)
          (length-empty_cache, empty_cache-Agrees i, refl, refl, refl, inr (refl, ground arith))
  ]
  | inr other ↦ elim (Bool-cases (h.code_gen == generation)) [
    | inl now ↦
        rw (other, now)
          (length-empty_cache, empty_cache-Agrees i, ground arith, refl, refl, inl refl)
    | inr stale ↦
        rw (other, stale) (length-empty_cache, empty_cache-Agrees i, refl, refl, refl, inl refl)
  ]
]

-- What the last steps of `resolve_cold` do not touch.
named_lem :
    (os_tid : ℕ) (text : String) (h : Hot) (threads : ThreadRegistry)
    → let u = (ensure_name text (enter_thread os_tid h) threads).0 in
      (u.code_gen ≡ h.code_gen)
      × (u.queue_id ≡ h.queue_id)
      × (u.last_code_id ≡ h.last_code_id)
      × (u.last_code_key ≡ h.last_code_key)
unfolding ensure_name enter_thread
named_lem os_tid text h threads = ground arith

-- Where an id was found, the thread remembers that; where none was, what it remembers must do.
remember-IsCoherent :
    (generation run key : ℕ) (result : Option ℕ) (h : Hot) (codes : CodeCache) (i j : Interner)
    → IsFound key i result codes j
    → (result ≡ none
        → h.last_code_key ≢ not_cached
        → h.queue_id ≡ run
        → lookup h.last_code_key j ≡ some h.last_code_id)
    → IsCoherent generation run j (remember key result h) codes
unfolding remember
remember-IsCoherent generation run key none h codes i j f kept = record {
  sized = f.sized;
  cache = λ q g. f.agrees;
  last = λ q g ne. kept refl ne q;
}
remember-IsCoherent generation run key (some id) h codes i j f kept = record {
  sized = f.sized;
  cache = λ q g. f.agrees;
  last = λ q g ne. last (h.ensured || h.name_retries == 0) ne;
}
  where
    last :
        (b : Bool)
        → (if b then key else not_cached) ≢ not_cached
        → lookup (if b then key else not_cached) j ≡ some id
    last true ne = f.found id refl
    last false ne = absurd (ne refl)

module _ {Chan : Type 0} where
  kept_lem :
      (m : Moment) (s : State Chan) (h : Hot) (codes : CodeCache) (j : Interner)
      → IsCoherent m.generation s.run s.interner h codes
      → Grows s.interner j
      → h.code_gen ≡ m.generation
      → let (hot1, codes1) = enter_run s.run h codes in
        let (hot2, codes2) = enter_generation m.generation hot1 codes1 in
        let u = (ensure_name m.thread_name (enter_thread m.os_tid hot2) s.threads).0 in
        u.last_code_key ≢ not_cached → lookup u.last_code_key j ≡ some u.last_code_id
  kept_lem m s h codes j c grows unchanged ne =
      let (hot1, codes1) = enter_run s.run h codes in
      let (hot2, codes2) = enter_generation m.generation hot1 codes1 in
      let (_, _, _, _, id_same, key_kept) = entered_lem m.generation s.run s.interner h codes c in
      let (_, _, id3, key3) = named_lem m.os_tid m.thread_name hot2 s.threads in
      elim key_kept [
        | inl cleared ↦ absurd (ne (key3 ∙ cleared))
        | inr (key_same, q) ↦
            rw (key3, key_same, id3, id_same)
              (grows h.last_code_key h.last_code_id
                (c.last q unchanged (λ e. ne (key3 ∙ key_same ∙ e))))
      ]

  -- `resolve_cold` gives the id that the interner has for the code object, and keeps the caches
  -- coherent where it gives one, or where the generation is that of the last call.
  resolve_cold-IsCoherent :
      (m : Moment) (s : State Chan) (h : Hot) (codes : CodeCache)
      → IsValid s.interner
      → IsCoherent m.generation s.run s.interner h codes
      → let (result, h', codes', s') = resolve_cold m s h codes in
        IsValid s'.interner
        × Grows s.interner s'.interner
        × ((id : ℕ) → result ≡ some id → lookup m.key s'.interner ≡ some id)
        × ((result ≢ none) ⊎ (h.code_gen ≡ m.generation)
            → IsCoherent m.generation s'.run s'.interner h' codes')
  unfolding resolve_cold
  resolve_cold-IsCoherent m s h codes v c =
      let (hot1, codes1) = enter_run s.run h codes in
      let (hot2, codes2) = enter_generation m.generation hot1 codes1 in
      let (sized, agrees, _, _, _, _) = entered_lem m.generation s.run s.interner h codes c in
      let f =
        find_id-IsFound m.key m.info s.queue.recycle_floor codes2 s.interner _ refl sized agrees
          v in
      (
        f.valid,
        f.grows,
        f.found,
        λ why. remember-IsCoherent m.generation s.run m.key _ _ _ s.interner _ f (λ nothing ne q.
            elim why [
              | inl found ↦ absurd (found nothing)
              | inr unchanged ↦ kept_lem m s h codes _ c f.grows unchanged ne
            ]),
      )

  -- The id that a call gets is the one that the interner has for its code object, also where it comes
  -- from the thread's caches; no other code object loses its id; and the caches stay coherent, unless
  -- the call gets no id after a change of the generation.
  pub resolve-IsCoherent :
      (m : Moment) (s : State Chan) (h : Hot) (codes : CodeCache)
      → IsValid s.interner
      → IsCoherent m.generation s.run s.interner h codes
      → m.key ≢ not_cached
      → let (result, h', codes', s') = resolve m s h codes in
        IsValid s'.interner
        × Grows s.interner s'.interner
        × ((id : ℕ) → result ≡ some id → lookup m.key s'.interner ≡ some id)
        × ((result ≢ none) ⊎ (h.code_gen ≡ m.generation)
            → IsCoherent m.generation s'.run s'.interner h' codes')
  unfolding resolve
  resolve-IsCoherent m s h codes v c real =
      elim (Bool-cases
        (h.last_code_key == m.key && h.queue_id == s.run && h.code_gen == m.generation)) [
          | inl fast ↦
              let (same, run, generation) = fast_lem h m s fast in
              rw fast (
                v,
                λ k n e. e,
                λ id e. rw (sym same) (c.last run generation (λ q. real (sym same ∙ q)) ∙ e),
                λ why. c,
              )
          | inr slow ↦ rw slow (resolve_cold-IsCoherent m s h codes v c)
        ]
    where
      fast_lem :
          (h : Hot) (m : Moment) (s : State Chan)
          → (h.last_code_key == m.key && h.queue_id == s.run && h.code_gen == m.generation) ≡ true
          → (h.last_code_key ≡ m.key) × (h.queue_id ≡ s.run) × (h.code_gen ≡ m.generation)
      fast_lem h m s e = ground arith
