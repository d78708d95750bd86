-- ===== src/Examples/Ring.antt =====
-- A ring of 100 bytes, and batches of 48 bytes each with one event.
use trace.Prelude.{ℕ, ◌+◌, ◌<◌, ◌≡◌, refl, some, List, [], ◌∷◌, ◌++◌, arith}
use trace.Prelude.{map, length, last_or, sum_of}
use trace.Batch.{EventBatch, bytes, end_ticks, event_count}
use trace.Ring.{Ring, push}
use trace.Ring.Evict.{IsValid, StopsAt}
use trace.Ring.Push.{push-IsValid, push_forgets_oldest}

abbrev pub one_event : ℕ → EventBatch
one_event base = record {
  base_ticks = base;
  tid = 4;
  events = record { delta_ticks = 5; code_kind = 1 } ∷ [];
  capacity = 1;
}

abbrev pub two_batches : Ring
two_batches = record {
  batches = one_event 10 ∷ one_event 20 ∷ [];
  held = 96;
  capacity = 100;
  floor = some 15;
  horizon_ticks = 3;
  evicted_events = 2;
}

two_batches-IsValid : IsValid two_batches
unfolding bytes
two_batches-IsValid = record { counted = refl; small = omega arith }

bytes-one_event : (base : ℕ) → bytes (one_event base) ≡ 48
unfolding bytes
bytes-one_event base = refl

pub end_ticks-one_event : end_ticks (one_event 10) ≡ 15
unfolding end_ticks
end_ticks-one_event = refl

push-IsValid_example :
    IsValid (push (one_event 30) two_batches)
    × StopsAt (push (one_event 30) two_batches).batches (push (one_event 30) two_batches)
push-IsValid_example =
    push-IsValid (one_event 30) two_batches two_batches-IsValid (omega (arith, bytes-one_event 30))

push_forgets_oldest_example :
    (out : List EventBatch) × (one_event 10 ∷ one_event 20 ∷ one_event 30 ∷ []
      ≡ out ++ (push (one_event 30) two_batches).batches)
    × (last_or (one_event 30) (push (one_event 30) two_batches).batches ≡ one_event 30)
    × (0 < length (push (one_event 30) two_batches).batches)
    × ((push (one_event 30) two_batches).horizon_ticks ≡ last_or 3 (map end_ticks out))
    × ((push (one_event 30) two_batches).evicted_events ≡ 2 + sum_of event_count out)
push_forgets_oldest_example = push_forgets_oldest (one_event 30) two_batches (omega arith)
