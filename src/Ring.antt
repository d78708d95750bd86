-- ===== src/Ring.antt =====
-- crates/core/src/ring.rs: batches in order of arrival, up to a capacity in bytes.
pub mod Evict
pub mod Push
use trace.Prelude.{ℕ, ◌*◌, Bool, true, false, not, ◌&&◌, Option, none, some, List, [], ◌∷◌, ◌++◌}
use trace.Prelude.{ltb, leb, if◌then◌else◌, length, saturate64, add64, sub64}
use trace.Batch.{EventBatch, bytes, end_ticks, event_count}

pub record Ring : Type 0 where
  pub batches : List EventBatch
  pub held : ℕ  -- `bytes`
  pub capacity : ℕ
  pub floor : Option ℕ
  pub horizon_ticks : ℕ
  pub evicted_events : ℕ

unfoldable pub new : ℕ → Ring
new capacity = record {
  batches = [];
  held = 0;
  capacity = capacity;
  floor = none;
  horizon_ticks = 0;
  evicted_events = 0;
}

pop_front : List EventBatch → Ring → Option (EventBatch × Ring)
pop_front [] r = none
pop_front (b ∷ rest) r = some (b, record r { batches = rest; held = sub64 r.held (bytes b) })

unfoldable pub pop : Ring → Option (EventBatch × Ring)
unfolding pop_front
pop r = pop_front r.batches r

-- The body of the loop of `evict_over_capacity`, past its tests.
unfoldable pub evict_one : EventBatch → List EventBatch → Ring → Ring
evict_one oldest rest r = record r {
  batches = rest;
  held = sub64 r.held (bytes oldest);
  horizon_ticks = end_ticks oldest;
  evicted_events = add64 r.evicted_events (event_count oldest);
}

unfoldable pub is_protected : Option ℕ → EventBatch → Bool
is_protected none oldest = false
is_protected (some floor) oldest = leb floor (end_ticks oldest)

-- The loop, over the batches still in the ring; a round takes one away or is the last.
unfoldable pub evict_from : List EventBatch → Ring → Ring
evict_from [] r = r
evict_from (oldest ∷ rest) r =
    let evicted = evict_from rest (evict_one oldest rest r) in
    if ltb r.capacity r.held && ltb 1 (length (oldest ∷ rest))
    then (if is_protected r.floor oldest && leb r.held (saturate64 (r.capacity * 2))
        then r
        else evicted)
    else r

unfoldable pub evict_over_capacity : Ring → Ring
evict_over_capacity r = evict_from r.batches r

unfoldable pub push : EventBatch → Ring → Ring
push b r =
    evict_over_capacity (record r { held = add64 r.held (bytes b); batches = r.batches ++ b ∷ [] })

unfoldable pub set_floor : Option ℕ → Ring → Ring
set_floor floor r = evict_over_capacity (record r { floor = floor })
