-- ===== src/Queue/Entries.antt =====
-- What a queue holds, with absolute ticks: the abstract view of the buffers.
use trace.Prelude.{ℕ, ◌≤◌, ◌≡◌, refl, List, [], ◌∷◌, ◌++◌, map, take, add64, length, some}
use trace.Event.{PackedEvent}
use trace.Batch.{EventBatch, batch_n}
use trace.Tls.{Thread, offset}
use trace.Prelude.{ap, ◌∙◌, sym, append_assoc}

-- Ticks, thread and packed code and kind of one event.
abbrev pub Entry : Type 0
Entry = ℕ × ℕ × ℕ

abbrev pub entry : ℕ → ℕ → PackedEvent → Entry
entry base_ticks tid p = (add64 base_ticks p.delta_ticks, tid, p.code_kind)

abbrev pub entries : EventBatch → List Entry
entries b = map (entry b.base_ticks b.tid) b.events

abbrev pub all_entries : List EventBatch → List Entry
all_entries [] = []
all_entries (b ∷ bs) = entries b ++ all_entries bs

-- The batch that `commit` would make of `b` now.
abbrev pub so_far : EventBatch → Thread → EventBatch
so_far b t = record b { events = take (offset t.hot.cursor) t.slots }

pub all_entries-append :
    (bs cs : List EventBatch) → all_entries (bs ++ cs) ≡ all_entries bs ++ all_entries cs
all_entries-append [] cs = refl
all_entries-append (b ∷ bs) cs =
    ap (◌++◌ (entries b)) (all_entries-append bs cs)
    ∙ sym (append_assoc (entries b) (all_entries bs) (all_entries cs))

-- A thread that writes into the batch `b`, its cursor at slot `i`.
pub record Writes (t : Thread) (b : EventBatch) (i : ℕ) : Type 0 where
  pub batch : t.batch ≡ some b
  pub cursor : t.hot.cursor ≡ some i
  pub limit : t.hot.limit ≡ some batch_n
  pub inside : i ≤ batch_n
  pub room : length t.slots ≡ batch_n
  pub base : t.hot.base_ticks ≡ b.base_ticks
  pub thread : t.hot.tid ≡ b.tid
