-- ===== src/Monitoring/Record.antt =====
-- A callback of crates/py/src/monitoring.rs in a thread that records.
use trace.Codecache.{CodeCache}
use trace.Tls.{Hot}
use trace.Monitoring.{Moment, State}
use trace.Prelude.{Option, some, ℕ, ◌≡◌}
use trace.Monitoring.{Thread, Spsc, EventBatch, EventKind}
use trace.Prelude.{if◌then◌else◌, ◌⊎◌}
use trace.Monitoring.{EventQueue, lookup}
use trace.Intern.Live.{IsValid}
use trace.Queue.Push.{Live, Recorded}
use trace.Monitoring.Refused.{IsFull}
use trace.Event.{pack_code_kind}

-- What a thread needs of its `Hot` to go on writing into its batch.
record IsSame (h u : Hot) : Type 0 where
  pub cursor : u.cursor ≡ h.cursor
  pub limit : u.limit ≡ h.limit
  pub base : u.base_ticks ≡ h.base_ticks
  pub thread : u.tid ≡ h.tid

-- The ticks of a call.
abbrev pub ticks_of : Moment → Thread → ℕ
ticks_of m t = if t.hot.clock_direct then m.counter else m.raw

module _ (R : Spsc EventBatch) where
  open R use {Chan, capacity, contents}

  -- How a callback may end: without an id, where the interner has none for the code object and none to
  -- give, and then nothing is recorded; or with the id that the interner has for the code object, and
  -- then the queue takes an entry with that id.
  abbrev pub Called :
      Moment
      → EventKind
      → State Chan
      → Thread
      → ℕ
      → Chan
      → EventBatch
      → ℕ
      → Option (State Chan × Thread × CodeCache)
      → Type 0
  Called m kind s t index chan b i result =
      (s' : State Chan) × (h : Hot) × (codes : CodeCache) × IsValid s'.interner
      × (s'.queue ≡ s.queue)
      × ((IsFull m.key s.queue.recycle_floor s.interner
            × (s'.interner ≡ s.interner)
            × (result ≡ some (s', record t { hot = h }, codes)))
          ⊎ ((id : ℕ) × (q : EventQueue Chan) × (u : Thread) × (lookup m.key s'.interner ≡ some id)
              × (result ≡ some (record s' { queue = q }, u, codes))
              × Recorded R (ticks_of m t, b.tid, pack_code_kind id kind) s.queue
                  (record t { hot = h }) index chan b i (some (q, u))))
