-- ===== src/Queue/Writing.antt =====
-- A thread that writes into its batch, for crates/core/src/evqueue.rs, without the queue.
use trace.Prelude.{◌==◌, true, Bool, ◌&&◌, leb}
use trace.Prelude.{ℕ, ◌^◌, ◌≤◌, ◌<◌, ◌≡◌, some, [], ◌∷◌, ◌++◌}
use trace.Prelude.{arith, add64, sub64, length, length-set, suc, ◌∙◌, ap}
use trace.Event.{PackedEvent}
use trace.Batch.{EventBatch, batch_n}
use trace.Tls.{Thread, commit, arm}
use trace.Queue.{write_next}
use trace.Queue.Entries.{entry, entries, so_far, Writes}
use trace.Queue.{delta_overflow, offset, before}
use trace.Prelude.{map, take-set_next, map-append, take, ◌-◌, ◌%◌}

-- One write: the cursor moves on by one slot, and the event stands behind the earlier ones.
pub write_next-Writes :
    (t : Thread) (b : EventBatch) (i : ℕ) (p : PackedEvent)
    → Writes t b i
    → i < batch_n
    → Writes (write_next p t) b (suc i)
      × (entries (so_far b (write_next p t))
          ≡ entries (so_far b t) ++ entry b.base_ticks b.tid p ∷ [])
unfolding write_next
write_next-Writes t b i p w h = (
  record {
    batch = w.batch;
    cursor = rw w.cursor (ap some (omega arith));
    limit = w.limit;
    inside = omega arith;
    room = length-set t.slots (offset t.hot.cursor) p ∙ w.room;
    base = w.base;
    thread = w.thread;
  },
  rw w.cursor (
      ap (map (entry b.base_ticks b.tid)) (take-set_next t.slots i p (omega (arith, w.room)))
      ∙ map-append (entry b.base_ticks b.tid) (take i t.slots) (p ∷ [])),
)

-- The delta of a tick to its base, which may wrap, adds up to the tick again.
pub base-add-delta :
    (base ticks : ℕ)
    → base < 2 ^ 64
    → ticks < 2 ^ 64
    → sub64 ticks base ≤ 2 ^ 32 - 1
    → add64 base (sub64 ticks base % 2 ^ 32) ≡ ticks
base-add-delta base ticks h k d = omega arith

-- `arm` puts the cursor at the start of the batch in hand.
pub arm-Writes :
    (t : Thread) (b : EventBatch)
    → t.batch ≡ some b
    → length t.slots ≡ batch_n
    → Writes (arm t) b 0 × (entries (so_far b (arm t)) ≡ [])
unfolding arm
arm-Writes t b e room = (
  record {
    batch = e;
    cursor = rw e;
    limit = rw e;
    inside = omega arith;
    room = room;
    base = rw e;
    thread = rw e;
  },
  rw e,
)

-- A batch just begun at `ticks` holds the event that began it.
pub begun-Writes :
    (t : Thread) (b : EventBatch) (code_kind : ℕ)
    → t.batch ≡ some b
    → length t.slots ≡ batch_n
    → b.base_ticks < 2 ^ 64
    → let u = write_next (record { delta_ticks = 0; code_kind = code_kind }) (arm t) in
      Writes u b 1 × (entries (so_far b u) ≡ (b.base_ticks, b.tid, code_kind) ∷ [])
begun-Writes t b code_kind e room small =
    let (armed, nothing) = arm-Writes t b e room in
    let p : PackedEvent = record { delta_ticks = 0; code_kind = code_kind } in
    let (w, one) = write_next-Writes (arm t) b 0 p armed (omega arith) in
    let exact : add64 b.base_ticks 0 ≡ b.base_ticks = omega arith in (w, one ∙ rw (nothing, exact))

pub commit_lem :
    (t : Thread) (b : EventBatch)
    → t.batch ≡ some b
    → commit t ≡ record t { batch = some (so_far b t) }
unfolding commit
commit_lem t b e = rw e

-- The test of the fast path.
abbrev pub goes_fast : ℕ → ℕ → Thread → Bool
goes_fast run ticks t =
    before t.hot.cursor t.hot.limit
    && t.hot.queue_id == run
    && leb (sub64 ticks t.hot.base_ticks) delta_overflow

pub goes_fast_bounds :
    (run ticks i : ℕ) (t : Thread)
    → t.hot.cursor ≡ some i
    → t.hot.limit ≡ some batch_n
    → goes_fast run ticks t ≡ true
    → (i < batch_n) × (sub64 ticks t.hot.base_ticks ≤ delta_overflow)
goes_fast_bounds run ticks i t c l h = ground arith
