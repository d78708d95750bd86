-- ===== src/Queue.antt =====
-- crates/core/src/evqueue.rs: the queue that threads record into and a background thread drains.
-- A thread writes into its own batch; full batches go through one `rtrb` ring for each thread. An
-- `unwrap` of a missing value is `none`.
pub mod Entries
pub mod Writing
pub mod Push
pub mod Drain
pub mod Tails
pub mod Flush
use trace.Prelude.{
  ℕ, ◌+◌, ◌*◌, ◌^◌, Bool, true, false, not, ◌&&◌, Option, none, some, List, [], ◌∷◌, ◌++◌,
}
use trace.Prelude.{ltb, leb, ◌==◌, if◌then◌else◌, length, get_elem?, set, add64, sub64, ◌%◌, ◌-◌}
use trace.Clock.{Clock, is_direct}
use trace.Event.{EventKind, PackedEvent, pack_code_kind}
use trace.Batch.{EventBatch, batch_n, with_capacity}
use trace.Spsc.{Spsc}
use trace.Tls.{Hot, Thread, fresh_slots, commit, arm, offset}

abbrev pub batches_capacity : ℕ
batches_capacity = 64

abbrev pub delta_overflow : ℕ
delta_overflow = 2 ^ 32 - 1

-- `consumers` holds the rings themselves; a producer is an index into it.
pub record EventQueue (Chan : Type 0) : Type 0 where
  pub id : ℕ
  pub clock : Clock
  pub recycle_floor : ℕ
  pub consumers : List Chan
  pub next_consumer : ℕ
  pub dropped : ℕ
  pub closed : Bool

-- `EventQueue::new`; the static counter `NEXT_QUEUE_ID` goes in and comes out.
unfoldable pub new : {Chan : Type 0} → Clock → ℕ → EventQueue Chan × ℕ
new clock next_queue_id = (
  record {
    id = next_queue_id;
    clock = clock;
    recycle_floor = 0;
    consumers = [];
    next_consumer = 0;
    dropped = 0;
    closed = false;
  },
  add64 next_queue_id 1,
)

-- `cursor < end` on pointers; null is the lowest address.
abbrev pub before : Option ℕ → Option ℕ → Bool
before (some i) (some j) = ltb i j
before none (some j) = true
before _ none = false

-- `write_slot(cursor, event)`, and `cursor + 1`.
unfoldable pub write_next : PackedEvent → Thread → Thread
write_next event t = record t {
  slots = set t.slots (offset t.hot.cursor) event;
  hot = record t.hot { cursor = some (offset t.hot.cursor + 1) };
}

unfoldable pub record_dropped : {Chan : Type 0} → ℕ → EventQueue Chan → EventQueue Chan
record_dropped events q = record q { dropped = add64 q.dropped events }

unfoldable pub close : {Chan : Type 0} → EventQueue Chan → EventQueue Chan
close q = record q { closed = true }

module _ (R : Spsc EventBatch) where
  open R use {Chan, create, push}

  -- `init_producer`: a ring and a batch for a thread that has none for this queue.
  unfoldable pub init_producer : ℕ → ℕ → EventQueue Chan → Thread → EventQueue Chan × Thread
  init_producer ticks tid q t = (
    record q { consumers = q.consumers ++ create batches_capacity ∷ [] },
    arm (record t {
      producer = some (q.id, length q.consumers);
      batch = some (with_capacity batch_n ticks tid);
      slots = fresh_slots;
      registered = true;
      hot = record t.hot { queue_id = q.id; clock_direct = is_direct q.clock };
    }),
  )

  -- After the push of `full`: its events are counted as lost and its buffer is used again where the
  -- ring had no room.
  renew : ℕ → ℕ → EventBatch → ℕ → Option Chan → EventQueue Chan → Thread → EventQueue Chan × Thread
  renew ticks tid full index none q t = (
    record q { dropped = add64 q.dropped (length full.events) },
    arm (record t { batch = some (record full { events = []; base_ticks = ticks; tid = tid }) }),
  )
  renew ticks tid full index (some chan) q t = (
    record q { consumers = set q.consumers index chan },
    arm (record t { batch = some (with_capacity batch_n ticks tid); slots = fresh_slots }),
  )

  unfoldable pub ship_and_renew :
      ℕ → ℕ → ℕ → EventQueue Chan → Thread → Option (EventQueue Chan × Thread)
  unfolding renew
  ship_and_renew ticks tid index q t =
      let committed = commit t in
      elim committed.batch [
        | none ↦ none
        | some full ↦ elim (get_elem? q.consumers index) [
          | none ↦ none
          | some chan ↦ some (renew ticks tid full index (push full chan) q committed)
        ]
      ]

  -- The first half of `slow_path`, by the thread's producer.
  refill : Option (ℕ × ℕ) → ℕ → ℕ → EventQueue Chan → Thread → Option (EventQueue Chan × Thread)
  refill none ticks tid q t = some (init_producer ticks tid q t)
  refill (some (id, index)) ticks tid q t =
      if id == q.id then ship_and_renew ticks tid index q t else some (init_producer ticks tid q t)

  unfoldable pub slow_path :
      ℕ → ℕ → ℕ → EventQueue Chan → Thread → Option (EventQueue Chan × Thread)
  unfolding refill
  slow_path ticks tid code_kind q t = elim (refill t.producer ticks tid q t) [
    | none ↦ none
    | some (r, u) ↦ some (r, write_next (record { delta_ticks = 0; code_kind = code_kind }) u)
  ]

  unfoldable pub push_with_ctx :
      ℕ → ℕ → ℕ → ℕ → EventKind → EventQueue Chan → Thread → Option (EventQueue Chan × Thread)
  push_with_ctx run ticks tid code_id kind q t =
      let code_kind = pack_code_kind code_id kind in
      let delta = sub64 ticks t.hot.base_ticks in
      if before t.hot.cursor t.hot.limit && t.hot.queue_id == run && leb delta delta_overflow
      then some (q, write_next (record { delta_ticks = delta % 2 ^ 32; code_kind = code_kind }) t)
      else slow_path ticks tid code_kind q t

  -- `flush_partial` of tls.rs: the batch in hand goes out before it is full. The count is of the
  -- events lost for want of room. `q` is the queue of the thread's producer.
  sent_partial :
      EventBatch → ℕ → Option Chan → EventQueue Chan → Thread → ℕ × EventQueue Chan × Thread
  sent_partial b index none q t = (length b.events, q, t)
  sent_partial b index (some chan) q t = (0, record q { consumers = set q.consumers index chan }, t)

  flush_batch :
      Option (ℕ × ℕ) → EventBatch → EventQueue Chan → Thread → Option (ℕ × EventQueue Chan × Thread)
  unfolding sent_partial
  flush_batch none b q t = some (0, q, arm t)
  flush_batch (some (id, index)) b q t =
      if length b.events == 0 then some (0, q, arm t) else elim (get_elem? q.consumers index) [
        | none ↦ none
        | some chan ↦ some (
            sent_partial b index (push b chan) q (
              arm (record t {
                batch = some (with_capacity batch_n b.base_ticks b.tid);
                slots = fresh_slots;
              })))
      ]

  unfoldable pub flush_partial : EventQueue Chan → Thread → Option (ℕ × EventQueue Chan × Thread)
  unfolding flush_batch
  flush_partial q t =
      let committed = commit t in
      elim committed.batch [
        | none ↦ some (0, q, committed)
        | some b ↦ flush_batch committed.producer b q committed
      ]
