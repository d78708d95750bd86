-- ===== src/Queue/Tails.antt =====
-- What `read_tail` of crates/core/src/tls.rs gives of a thread that does not move meanwhile.
use trace.Tls.Tails.{
  Look, read_tail, first_tail, try_tail, slots_from, between_pointers, copy_tail, tail_len,
  tail_retries,
}
use trace.Queue.Entries.{Writes, so_far}
use trace.Prelude.{
  All, List, Option, [], ap, arith, length, none, refl, some, suc, take, true, zero, ℕ, ◌%◌, ◌++◌,
  ◌+◌, ◌<◌, ◌==◌, ◌∙◌, ◌∷◌, ◌≡◌, ◌≤◌,
}
use trace.Event.{PackedEvent}
use trace.Tls.{Thread, blank}
use trace.Batch.{EventBatch, batch_n}
use trace.Prelude.{false, ltb, ◌||◌}
use trace.Tls.Tails.{again, tail}

abbrev pub slot_or_blank : List PackedEvent → ℕ → PackedEvent
slot_or_blank [] i = blank
slot_or_blank (p ∷ slots) zero = p
slot_or_blank (p ∷ slots) (suc i) = slot_or_blank slots i

abbrev pub address : ℕ → Option ℕ → Option ℕ
address start none = none
address start (some i) = some (start + i)

-- A try during which the thread does nothing. Its buffer begins at the address `start`.
abbrev pub look_at : ℕ → Thread → Look
look_at start t = record {
  epoch = t.hot.epoch;
  queue_id = t.hot.queue_id;
  cursor = address start t.hot.cursor;
  limit = address start t.hot.limit;
  base_ticks = t.hot.base_ticks;
  tid = t.hot.tid;
  slot = slot_or_blank t.slots;
  epoch_after = t.hot.epoch;
}

slots_from-suc :
    (p : PackedEvent) (slots : List PackedEvent) (i n : ℕ)
    → slots_from (slot_or_blank (p ∷ slots)) (suc i) n ≡ slots_from (slot_or_blank slots) i n
unfolding slots_from
slots_from-suc p slots i zero = refl
slots_from-suc p slots i (suc n) =
    let e : suc i + 1 ≡ suc (i + 1) = omega arith in
    rw e (ap (◌∷◌ (slot_or_blank slots i)) (slots_from-suc p slots (i + 1) n))

slots_from-take :
    (slots : List PackedEvent) (n : ℕ)
    → n ≤ length slots
    → slots_from (slot_or_blank slots) 0 n ≡ take n slots
unfolding slots_from
slots_from-take slots zero h = refl
slots_from-take [] (suc n) h = absurd (omega arith)
slots_from-take (p ∷ slots) (suc n) h =
    ap (◌∷◌ p) (slots_from-suc p slots 0 n ∙ slots_from-take slots n (omega arith))

-- Tries that the thread's epoch turns away.
abbrev Busy : List Look → Type 0
Busy looks = All (λ (l : Look). l.epoch % 2 ≡ 1) looks

try_tail-odd : (queue_id : ℕ) (l : Look) → l.epoch % 2 ≡ 1 → try_tail queue_id l ≡ again
unfolding try_tail
try_tail-odd queue_id l h = let odd : (l.epoch % 2 == 1) ≡ true = ground (arith, h) in rw odd refl

first_tail-Busy :
    (queue_id n : ℕ) (busy later : List Look) (l : Look) (b : EventBatch)
    → length busy < n
    → Busy busy
    → try_tail queue_id l ≡ tail b
    → first_tail queue_id (take n (busy ++ l ∷ later)) ≡ some b
unfolding first_tail
first_tail-Busy queue_id zero busy later l b few h e = absurd (omega arith)
first_tail-Busy queue_id (suc n) [] later l b few h e = rw (first_tail, e) refl
first_tail-Busy queue_id (suc n) (k ∷ busy) later l b few h e =
    rw (first_tail, try_tail-odd queue_id k (h.0))
      (first_tail-Busy queue_id n busy later l b (omega arith) (h.1) e)

copied :
    (start i : ℕ) (t : Thread) (b : EventBatch)
    → Writes t b i
    → 0 < i
    → copy_tail (tail_len (start + i) (start + batch_n)) (look_at start t)
      ≡ tail (record (so_far b t) { capacity = i })
unfolding copy_tail
copied start i t b w pos =
    let len : tail_len (start + i) (start + batch_n) ≡ i = omega arith in
    let inside = w.inside in
    let fits : (i == 0 || ltb batch_n i) ≡ false = ground arith in
    let settled : (t.hot.epoch == t.hot.epoch) ≡ true = ground arith in
    let slots : slots_from (slot_or_blank t.slots) 0 i ≡ take i t.slots =
      slots_from-take t.slots i (omega (arith, w.room, w.inside)) in
    rw (len, fits, settled, slots, w.base, w.thread, w.cursor) refl

looked :
    (queue_id start i : ℕ) (t : Thread) (b : EventBatch)
    → Writes t b i
    → 0 < i
    → t.hot.epoch % 2 ≡ 0
    → t.hot.queue_id ≡ queue_id
    → try_tail queue_id (look_at start t) ≡ tail (record (so_far b t) { capacity = i })
unfolding try_tail between_pointers
looked queue_id start i t b w pos even same =
    let settled : (t.hot.epoch % 2 == 1) ≡ false = ground (arith, even) in
    let ours : (t.hot.queue_id == queue_id) ≡ true = ground (arith, same) in
    rw (settled, ours)
      (pointers (address start t.hot.cursor) (address start t.hot.limit)
        (ap (address start) w.cursor) (ap (address start) w.limit))
  where
    pointers :
        (cursor limit : Option ℕ)
        → cursor ≡ some (start + i)
        → limit ≡ some (start + batch_n)
        → between_pointers cursor limit (look_at start t)
          ≡ tail (record (so_far b t) { capacity = i })
    pointers cursor limit e f = rw (e, f) (copied start i t b w pos)

-- A thread writes into a batch of the queue, has written `i` events of it, one at least, and its epoch
-- is even. If it does nothing during one of the eight tries, after fewer than eight that an odd epoch
-- turns away, then `read_tail` gives its batch so far: its base, its thread, and the events written.
pub read_tail-so_far :
    (queue_id start i : ℕ) (t : Thread) (b : EventBatch) (busy later : List Look)
    → Writes t b i
    → 0 < i
    → t.hot.epoch % 2 ≡ 0
    → t.hot.queue_id ≡ queue_id
    → length busy < tail_retries
    → Busy busy
    → read_tail queue_id (busy ++ look_at start t ∷ later)
      ≡ some (record (so_far b t) { capacity = i })
unfolding read_tail
read_tail-so_far queue_id start i t b busy later w pos even same few odd =
    first_tail-Busy queue_id tail_retries busy later (look_at start t) _ few odd
      (looked queue_id start i t b w pos even same)
