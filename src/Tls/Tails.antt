-- ===== src/Tls/Tails.antt =====
-- `read_tails` of crates/core/src/tls.rs: the batch that a thread is writing, read from another thread.
-- One try reads the fields one after the other while the thread goes on, so that they may belong to
-- different moments; the epoch tells.
use trace.Prelude.{
  List, Option, [], if◌then◌else◌, ltb, none, not, some, suc, take, zero, ℕ, ◌%◌, ◌+◌, ◌-◌, ◌==◌,
  ◌||◌, ◌∷◌,
}
use trace.Batch.{EventBatch, batch_n}
use trace.Event.{PackedEvent}

abbrev pub tail_retries : ℕ
tail_retries = 8

-- What one try loads. The pointers are addresses, in slots, and `slot i` is read at `start.add(i)`.
pub record Look : Type 0 where
  pub epoch : ℕ
  pub queue_id : ℕ
  pub cursor : Option ℕ
  pub limit : Option ℕ
  pub base_ticks : ℕ
  pub tid : ℕ
  pub slot : ℕ → PackedEvent
  pub epoch_after : ℕ

-- `cursor.offset_from(end.sub(BATCH_N))`, where it is positive; 0 stands for all that is not.
abbrev pub tail_len : ℕ → ℕ → ℕ
tail_len cursor limit = cursor + batch_n - limit

unfoldable pub slots_from : (ℕ → PackedEvent) → ℕ → ℕ → List PackedEvent
slots_from slot i zero = []
slots_from slot i (suc n) = slot i ∷ slots_from slot (i + 1) n

-- How a try ends.
pub data Attempt : Type 0 where
  again : Attempt
  no_tail : Attempt
  tail : EventBatch → Attempt

unfoldable pub copy_tail : ℕ → Look → Attempt
copy_tail len look =
    if len == 0 || ltb batch_n len
    then again
    else if not (look.epoch_after == look.epoch)
    then again
    else tail (record {
      base_ticks = look.base_ticks;
      tid = look.tid;
      events = slots_from look.slot 0 len;
      capacity = len;
    })

unfoldable pub between_pointers : Option ℕ → Option ℕ → Look → Attempt
unfolding copy_tail
between_pointers none limit look = no_tail
between_pointers (some cursor) none look = no_tail
between_pointers (some cursor) (some limit) look = copy_tail (tail_len cursor limit) look

-- The body of the loop of `read_tail`.
unfoldable pub try_tail : ℕ → Look → Attempt
unfolding between_pointers
try_tail queue_id look =
    if look.epoch % 2 == 1
    then again
    else if not (look.queue_id == queue_id)
    then no_tail
    else between_pointers look.cursor look.limit look

-- The loop, by what its tries load.
unfoldable pub first_tail : ℕ → List Look → Option EventBatch
first_tail queue_id [] = none
first_tail queue_id (look ∷ looks) =
    let rest = first_tail queue_id looks in
    elim (try_tail queue_id look) [ again ↦ rest | no_tail ↦ none | tail b ↦ some b ]

unfoldable pub read_tail : ℕ → List Look → Option EventBatch
read_tail queue_id looks = first_tail queue_id (take tail_retries looks)

-- `read_tails`, by what the tries at each thread load.
unfoldable pub read_tails : ℕ → List (List Look) → List EventBatch
read_tails queue_id [] = []
read_tails queue_id (looks ∷ threads) =
    let rest = read_tails queue_id threads in
    elim (read_tail queue_id looks) [ none ↦ rest | some b ↦ b ∷ rest ]
