-- ===== src/Queue/Flush.antt =====
-- `flush_every_thread` of crates/core/src/tls.rs: the batch in hand of every thread goes out.
use trace.Queue.{EventQueue, flush_partial, Spsc, EventBatch, Thread}
use trace.Prelude.{List, Option, [], add64, none, some, ℕ, ◌∷◌}

module _ (R : Spsc EventBatch) where
  open R use {Chan}

  -- The events lost, over the listed threads. Each has its producer in this queue, or none.
  unfoldable pub flush_every_thread :
      ℕ → EventQueue Chan → List Thread → Option (ℕ × EventQueue Chan × List Thread)
  flush_every_thread lost q [] = some (lost, q, [])
  flush_every_thread lost q (t ∷ threads) = elim (flush_partial R q t) [
    | none ↦ none
    | some (n, q', t') ↦ elim (flush_every_thread (add64 lost n) q' threads) [
      | none ↦ none
      | some (all, final, flushed) ↦ some (all, final, t' ∷ flushed)
    ]
  ]
