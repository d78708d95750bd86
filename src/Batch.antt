-- ===== src/Batch.antt =====
-- crates/core/src/evqueue.rs, lines 18 to 50: a batch of packed events of one thread.
use trace.Prelude.{ℕ, ◌+◌, ◌*◌, List, [], map, last_or, length, add64}
use trace.Clock.{Clock}
use trace.Event.{PackedEvent, Event, from_packed}

-- `BATCH_N`
abbrev pub batch_n : ℕ
batch_n = 1024

-- `capacity` is that of the vector `events`, which no operation makes grow.
pub record EventBatch : Type 0 where
  pub base_ticks : ℕ
  pub tid : ℕ
  pub events : List PackedEvent
  pub capacity : ℕ

unfoldable pub with_capacity : ℕ → ℕ → ℕ → EventBatch
with_capacity cap base_ticks tid = record {
  base_ticks = base_ticks;
  tid = tid;
  events = [];
  capacity = cap;
}

-- `size_of::<EventBatch>()` on a 64-bit target: a `u64`, a padded `u32` and a `Vec` of three words.
abbrev pub size_of_batch : ℕ
size_of_batch = 40

unfoldable pub bytes : EventBatch → ℕ
bytes b = size_of_batch + b.capacity * 8

-- What `decode_into` appends to `out`.
unfoldable pub decode_into : Clock → EventBatch → List Event
decode_into clock b = map (from_packed clock b.base_ticks b.tid) b.events

last_delta : List PackedEvent → ℕ
last_delta events = last_or 0 (map (λ e. e.delta_ticks) events)

unfoldable pub end_ticks : EventBatch → ℕ
unfolding last_delta
end_ticks b = add64 b.base_ticks (last_delta b.events)

abbrev pub event_count : EventBatch → ℕ
event_count b = length b.events
