-- ===== src/Examples/Calls.antt =====
-- A callback of the thread that has recorded, for a code object with a freed id, and the notice that
-- the object of its last call is freed; and the batch that it is writing, read from outside.
use trace.Examples.Queue.{queue, thread, thread-Live, batch}
use trace.Examples.Codes.{two_codes, two_codes-IsValid}
use trace.Monitoring.{State, Moment, resolve}
use trace.Monitoring.Coherence.{resolve-IsCoherent}
use trace.Monitoring.Caches.{IsCoherent, Grows, empty_cache-Agrees}
use trace.Codewatch.{on_code_event, code_event_destroy}
use trace.Codewatch.Freed.{on_code_event-IsCoherent}
use trace.Intern.{lookup, Interner}
use trace.Intern.Live.{IsValid}
use trace.Prelude.{
  All, List, [], arith, get_elem?, length-replicate, none, refl, some, ℕ, ◌∷◌, ◌≡◌, ◌≢◌, ◌≤◌, ◌⊎◌,
}
use trace.Batch.{EventBatch}
use trace.Tls.Tails.{read_tail, Look}
use trace.Sink.{default_info}
use trace.Codecache.{empty_cache, Slot, slot_count}
use trace.Queue.Tails.{look_at, read_tail-so_far}
use trace.Queue.Entries.{so_far}

abbrev state : State (ℕ × List EventBatch)
state = record { run = 9; queue = queue; interner = two_codes; threads = record { inner = [] } }

abbrev moment : Moment
moment = record {
  counter = 0;
  raw = 733;
  generation = 0;
  os_tid = 4;
  thread_name = "main";
  key = 12;
  info = default_info;
}

thread-IsCoherent : IsCoherent 0 9 two_codes thread.hot empty_cache
unfolding empty_cache lookup
thread-IsCoherent = record {
  sized = length-replicate {A = Slot} slot_count (record { key = 0; id = 0 });
  cache = λ run generation. empty_cache-Agrees two_codes;
  last = λ run generation real. refl;
}

resolve-IsCoherent_example :
    let (result, h', codes', s') = resolve moment state thread.hot empty_cache in
    IsValid s'.interner
    × Grows two_codes s'.interner
    × ((id : ℕ) → result ≡ some id → lookup 12 s'.interner ≡ some id)
    × ((result ≢ none) ⊎ (thread.hot.code_gen ≡ 0) → IsCoherent 0 s'.run s'.interner h' codes')
resolve-IsCoherent_example =
    resolve-IsCoherent moment state thread.hot empty_cache two_codes-IsValid thread-IsCoherent
      (λ e. omega arith)

on_code_event-IsCoherent_example :
    let (after, generation') = on_code_event code_event_destroy 11 ((two_codes, 700) ∷ []) 0 in
    All (λ (w : Interner × ℕ). IsValid (w.0) × (lookup 11 (w.0) ≡ none)) after
    × ((j : Interner) × (get_elem? after 0 ≡ some (j, 700))
        × IsCoherent generation' 9 j thread.hot empty_cache)
    × (0 ≤ generation')
on_code_event-IsCoherent_example =
    on_code_event-IsCoherent 11 0 9 0 700 ((two_codes, 700) ∷ []) two_codes thread.hot empty_cache
      (two_codes-IsValid, tt) refl thread-IsCoherent (omega arith) (omega arith)

abbrev busy : Look
busy = record (look_at 0x4000 thread) { epoch = 3 }

read_tail-so_far_example :
    read_tail 9 (busy ∷ look_at 0x4000 thread ∷ [])
    ≡ some (record (so_far batch thread) { capacity = 1 })
read_tail-so_far_example =
    read_tail-so_far 9 0x4000 1 thread batch (busy ∷ []) [] thread-Live.writes (omega arith) refl
      refl (omega arith) (refl, tt)
