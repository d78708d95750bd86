-- ===== src/Snapshot/Streams.antt =====
-- Grouping by thread, of crates/core/src/snapshot.rs.
use trace.Prelude.{ℕ, ◌≡◌, refl, false, List, [], ◌∷◌, ◌++◌, ◌==◌, if◌then◌else◌}
use trace.Batch.{EventBatch}
use trace.Snapshot.{Stamp, Streams, stamps, extend, streams_of, any}
use trace.Prelude.{sym, arith, append-nil, ◌∙◌, append_assoc}

-- The first stream of a thread, if it has one.
abbrev pub stream_of : ℕ → Streams → List Stamp
stream_of tid [] = []
stream_of tid ((t, stream) ∷ streams) = if t == tid then stream else stream_of tid streams

-- What the batches of a thread hold, in order.
abbrev pub stamps_of : ℕ → List EventBatch → List Stamp
stamps_of tid [] = []
stamps_of tid (b ∷ bs) = if b.tid == tid then stamps b ++ stamps_of tid bs else stamps_of tid bs

-- No two streams are of one thread.
abbrev pub IsApart : Streams → Type 0
IsApart [] = Unit {0}
IsApart ((tid, _) ∷ streams) = (any (λ s. s.0 == tid) streams ≡ false) × IsApart streams

stream_of-extend :
    (tid : ℕ) (b : EventBatch) (streams : Streams)
    → stream_of tid (extend b streams)
      ≡ (if b.tid == tid then stream_of tid streams ++ stamps b else stream_of tid streams)
unfolding extend
stream_of-extend tid b [] = refl
stream_of-extend tid b ((t, stream) ∷ streams) = ground (arith, stream_of-extend tid b streams)

any-extend :
    (tid : ℕ) (b : EventBatch) (streams : Streams)
    → (b.tid == tid) ≡ false
    → any (λ s. s.0 == tid) streams ≡ false
    → any (λ s. s.0 == tid) (extend b streams) ≡ false
unfolding extend
any-extend tid b [] h k = rw h
any-extend tid b ((t, stream) ∷ streams) h k = ground (arith, any-extend tid b streams h)

extend-IsApart : (b : EventBatch) (streams : Streams) → IsApart streams → IsApart (extend b streams)
unfolding extend
extend-IsApart b [] h = (refl, tt)
extend-IsApart b ((t, stream) ∷ streams) h =
    ground (arith, extend-IsApart b streams h.1, any-extend t b streams)

streams_of-IsApart :
    (streams : Streams) (bs : List EventBatch) → IsApart streams → IsApart (streams_of streams bs)
unfolding streams_of
streams_of-IsApart streams [] h = h
streams_of-IsApart streams (b ∷ bs) h =
    streams_of-IsApart (extend b streams) bs (extend-IsApart b streams h)

stream_of-streams_of :
    (tid : ℕ) (streams : Streams) (bs : List EventBatch)
    → stream_of tid (streams_of streams bs) ≡ stream_of tid streams ++ stamps_of tid bs
unfolding streams_of
stream_of-streams_of tid streams [] = sym (append-nil (stream_of tid streams))
stream_of-streams_of tid streams (b ∷ bs) =
    stream_of-streams_of tid (extend b streams) bs
    ∙ rw (stream_of-extend tid b streams)
        (ground (arith, append_assoc (stream_of tid streams) (stamps b) (stamps_of tid bs)))

-- The streams that `assemble` replays: one at most for each thread, and in it all that the thread's
-- batches hold, in the order of the batches.
pub streams_of_lem :
    (bs : List EventBatch)
    → IsApart (streams_of [] bs) × ((tid : ℕ) → stream_of tid (streams_of [] bs) ≡ stamps_of tid bs)
streams_of_lem bs = (streams_of-IsApart [] bs tt, λ tid. stream_of-streams_of tid [] bs)
