-- ===== src/Examples/Queue.antt =====
-- A thread that has recorded one event into a queue of one ring, with the ring a list.
use trace.Prelude.{ℕ, refl, some, List, [], ◌∷◌, arith, false, ◌≡◌, length, ◌≤◌, ◌<◌}
use trace.Prelude.{set, length-replicate, length-set}
use trace.Event.{PackedEvent, begin, finish, pack_code_kind}
use trace.Batch.{EventBatch, batch_n}
use trace.Tls.{Thread, fresh_slots, blank}
use trace.Queue.{EventQueue, push_with_ctx}
use trace.Queue.Drain.{drain_batches}
use trace.Queue.Drain.Order.{Drains, Cleared, drain_batches-Drains}
use trace.Queue.Push.{Live, Recorded, push_with_ctx-Recorded}
use trace.Examples.Clock.{slow}
use trace.Examples.Fifo.{fifo}

abbrev pub channel : ℕ × List EventBatch
channel = (64, [])

abbrev pub queue : EventQueue (ℕ × List EventBatch)
queue = record {
  id = 9;
  clock = slow;
  recycle_floor = 0;
  consumers = channel ∷ [];
  next_consumer = 0;
  dropped = 0;
  closed = false;
}

abbrev pub batch : EventBatch
batch = record { base_ticks = 700; tid = 4; events = []; capacity = 1024 }

abbrev first : PackedEvent
first = record { delta_ticks = 0; code_kind = pack_code_kind 1 begin }

abbrev pub thread : Thread
thread = record {
  hot = record {
    cursor = some 1;
    limit = some batch_n;
    base_ticks = 700;
    queue_id = 9;
    epoch = 2;
    code_gen = 0;
    clock_direct = false;
    last_code_key = 11;
    last_code_id = 0;
    tid = 4;
    ensured = false;
    name_retries = 0;
  };
  producer = some (9, 0);
  batch = some batch;
  slots = set fresh_slots 0 first;
  registered = false;
}

pub thread-Live : Live (fifo EventBatch) queue thread 0 channel batch 1
thread-Live = record {
  writes = record {
    batch = refl;
    cursor = refl;
    limit = refl;
    inside = omega arith;
    room = omega (arith, length-set fresh_slots 0 first, length-replicate batch_n blank);
    base = refl;
    thread = refl;
  };
  producer = refl;
  consumer = refl;
  based = omega arith;
}

push_with_ctx-Recorded_example :
    Recorded
      (fifo EventBatch)
      (733, 4, pack_code_kind 1 finish)
      queue
      thread
      0
      channel
      batch
      1
      (push_with_ctx (fifo EventBatch) 9 733 4 1 finish queue thread)
push_with_ctx-Recorded_example =
    push_with_ctx-Recorded (fifo EventBatch) queue thread 0 channel batch 1 9 733 1 finish
      thread-Live (omega arith)

abbrev drained : EventQueue (ℕ × List EventBatch)
drained = record queue { consumers = (64, batch ∷ batch ∷ []) ∷ (64, batch ∷ []) ∷ [] }

drain_batches-Drains_example :
    (taken : List EventBatch) × (r : EventQueue (ℕ × List EventBatch)) × (drain_batches
        (fifo EventBatch)
        256
        drained
      ≡ some (taken, r))
    × Drains (fifo EventBatch) drained.consumers taken r.consumers
    × (length taken ≤ 256)
    × (length taken < 256 → (index : ℕ) → Cleared (fifo EventBatch) r.consumers index)
    × (r ≡ record drained { consumers = r.consumers; next_consumer = r.next_consumer })
drain_batches-Drains_example = drain_batches-Drains (fifo EventBatch) 256 drained (omega arith)
