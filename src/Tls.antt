-- ===== src/Tls.antt =====
-- crates/core/src/tls.rs: what a thread keeps between two events.
-- `Hot` is what the recording path reads; `Cold` owns the batch that it writes into. A pointer into
-- the batch is `none` where it is null, and else the count of slots from the start of its buffer.
pub mod Recorders
pub mod Tails
use trace.Prelude.{ℕ, ◌+◌, ◌%◌, ◌^◌, Bool, false, Option, none, some, List, [], take}
use trace.Prelude.{replicate, ◌-◌}
use trace.Event.{PackedEvent}
use trace.Batch.{EventBatch, batch_n}

abbrev pub not_cached : ℕ
not_cached = 2 ^ 64 - 1

pub record Hot : Type 0 where
  pub cursor : Option ℕ
  pub limit : Option ℕ  -- `end`
  pub base_ticks : ℕ
  pub queue_id : ℕ
  pub epoch : ℕ
  pub code_gen : ℕ
  pub clock_direct : Bool
  pub last_code_key : ℕ
  pub last_code_id : ℕ
  pub tid : ℕ
  pub ensured : Bool
  pub name_retries : ℕ

unfoldable pub empty : Hot
empty = record {
  cursor = none;
  limit = none;
  base_ticks = 0;
  queue_id = 0;
  epoch = 0;
  code_gen = 0;
  clock_direct = false;
  last_code_key = not_cached;
  last_code_id = 2 ^ 32 - 1;
  tid = 2 ^ 32 - 1;
  ensured = false;
  name_retries = 0;
}

-- One thread: its `Hot`, its `Cold` (`producer` and `batch`), and the raw slots of the buffer of
-- `batch`, written or not. The producer is the id of its queue and the index of its ring there.
pub record Thread : Type 0 where
  pub hot : Hot
  pub producer : Option (ℕ × ℕ)
  pub batch : Option EventBatch
  pub slots : List PackedEvent
  pub registered : Bool  -- whether `RECORDERS` lists the thread, which it does once at most

-- What a slot holds that was never written.
abbrev pub blank : PackedEvent
blank = record { delta_ticks = 0; code_kind = 0 }

abbrev pub fresh_slots : List PackedEvent
fresh_slots = replicate batch_n blank

-- The state of a thread that has recorded nothing.
unfoldable pub untouched : Thread
untouched = record { hot = empty; producer = none; batch = none; slots = []; registered = false }

abbrev pub offset : Option ℕ → ℕ
offset none = 0
offset (some i) = i

-- `commit`: the events of the batch are the slots that the cursor has walked past.
unfoldable pub commit : Thread → Thread
commit t = elim t.batch [
  | none ↦ t
  | some b ↦ record t { batch = some (record b { events = take (offset t.hot.cursor) t.slots }) }
]

arm_hot : Option EventBatch → Hot → Hot
arm_hot none h = record h { cursor = none; limit = none; epoch = (h.epoch + 2) % 2 ^ 64 }
arm_hot (some b) h = record h {
  base_ticks = b.base_ticks;
  tid = b.tid;
  cursor = some 0;
  limit = some batch_n;
  epoch = (h.epoch + 2) % 2 ^ 64;
}

-- `arm`: the cursor goes to the start of the batch. The epoch is odd in between.
unfoldable pub arm : Thread → Thread
unfolding arm_hot
arm t = record t { hot = arm_hot t.batch t.hot }
