-- ===== src/Snapshot.antt =====
-- crates/core/src/snapshot.rs: a dump of the events between two ticks, put together from batches.
-- The streams of the threads are replayed with a stack of open frames, so that a slice that is open
-- at the start still shows.
pub mod Frames
pub mod Replay
pub mod Streams
pub mod Sorting
use trace.Prelude.{ℕ, ◌+◌, ◌*◌, ◌/◌, ◌%◌, ◌^◌, Bool, true, false, not, ◌&&◌, Option, none, some}
use trace.Prelude.{List, [], ◌∷◌, ◌++◌, map, ltb, leb, ◌==◌, if◌then◌else◌, retain, any, add64}
use trace.Clock.{Clock, ns_since_start}
use trace.Event.{
  EventKind, begin, PackedEvent, Event, opens_slice, kind_of, code_id_of, pack_code_kind,
}
use trace.Event
use trace.Batch.{EventBatch}

-- Ticks and packed word of an event of one thread, and the same with the thread between them.
abbrev pub Stamp : Type 0
Stamp = ℕ × ℕ

abbrev pub Row : Type 0
Row = ℕ × ℕ × ℕ

abbrev pub row : ℕ → Stamp → Row
row tid (ticks, code_kind) = (ticks, tid, code_kind)

unfoldable pub opens : ℕ → Bool
opens code_kind = opens_slice (kind_of code_kind)

-- `stack.pop()`, with the top of the stack at the head of the list.
abbrev pub pop : List Stamp → List Stamp
pop [] = []
pop (_ ∷ stack) = stack

abbrev pub is_empty : {A : Type 0} → List A → Bool
is_empty [] = true
is_empty (_ ∷ _) = false

abbrev pub oldest_first : {A : Type 0} → List A → List A
oldest_first [] = []
oldest_first (x ∷ xs) = oldest_first xs ++ x ∷ []

-- The frames that are open, outermost first, as they go out.
abbrev pub open_rows : ℕ → List Stamp → List Row
open_rows tid stack = map (row tid) (oldest_first stack)

-- `if !opens_emitted { .. }`
abbrev pub owed : ℕ → Bool → List Stamp → List Row
owed tid emitted stack = if emitted then [] else open_rows tid stack

-- The row put before a close that no frame is open for.
abbrev pub synthesized : ℕ → ℕ → ℕ → Row
synthesized tid horizon_ticks code_kind =
    (horizon_ticks, tid, pack_code_kind (code_id_of code_kind) begin)

-- One event within the window: what it puts out, and the stack behind it.
abbrev pub inside : ℕ → ℕ → Stamp → List Stamp → List Row × List Stamp
inside tid horizon_ticks (ticks, code_kind) stack =
    if opens code_kind
    then ((ticks, tid, code_kind) ∷ [], (ticks, code_kind) ∷ stack)
    else if is_empty stack
    then (synthesized tid horizon_ticks code_kind ∷ (ticks, tid, code_kind) ∷ [], [])
    else ((ticks, tid, code_kind) ∷ [], pop stack)

-- An event before the window only moves the stack.
abbrev pub moved : Stamp → List Stamp → List Stamp
moved (ticks, code_kind) stack = if opens code_kind then (ticks, code_kind) ∷ stack else pop stack

module _ (tid horizon_ticks start_ticks end_ticks : ℕ) where
  -- What the loop of `replay` appends to `out`.
  unfoldable pub replay_from : Bool → List Stamp → List Stamp → List Row
  replay_from emitted stack [] = owed tid emitted stack
  replay_from emitted stack (x ∷ stream) =
      let (rows, stack') = inside tid horizon_ticks x stack in
      let earlier = replay_from emitted (moved x stack) stream in
      let later = replay_from true stack' stream in
      if ltb x.0 start_ticks
      then earlier
      else owed tid emitted stack ++ (if ltb end_ticks x.0 then [] else rows ++ later)

  unfoldable pub replay : List Stamp → List Row
  unfolding replay_from
  replay stream = replay_from false [] stream

-- A tail that a batch of the history already is, by thread and base.
abbrev pub same_batch : EventBatch → EventBatch → Bool
same_batch t h = h.tid == t.tid && h.base_ticks == t.base_ticks

unfoldable pub fresh_tails : List EventBatch → List EventBatch → List EventBatch
fresh_tails history tails = retain (λ t. not (any (same_batch t) history)) tails

abbrev pub Streams : Type 0
Streams = List (ℕ × List Stamp)

abbrev pub stamps : EventBatch → List Stamp
stamps b = map (λ p. (add64 b.base_ticks p.delta_ticks, p.code_kind)) b.events

-- The stream of the batch's thread grows, or begins.
unfoldable pub extend : EventBatch → Streams → Streams
extend b [] = (b.tid, stamps b) ∷ []
extend b ((tid, stream) ∷ streams) =
    if tid == b.tid then (tid, stream ++ stamps b) ∷ streams else (tid, stream) ∷ extend b streams

unfoldable pub streams_of : Streams → List EventBatch → Streams
streams_of streams [] = streams
streams_of streams (b ∷ bs) = streams_of (extend b streams) bs

unfoldable pub replay_all : ℕ → ℕ → ℕ → Streams → List Row
replay_all horizon start end_ticks [] = []
replay_all horizon start end_ticks ((tid, stream) ∷ streams) =
    replay tid horizon start end_ticks stream ++ replay_all horizon start end_ticks streams

-- `sort_by_key` is a stable sort by ticks.
unfoldable pub insert : Row → List Row → List Row
insert x [] = x ∷ []
insert x (y ∷ rows) = if leb x.0 y.0 then x ∷ y ∷ rows else y ∷ insert x rows

unfoldable pub sort_by_ticks : List Row → List Row
sort_by_ticks [] = []
sort_by_ticks (x ∷ rows) = insert x (sort_by_ticks rows)

-- The last loop of `assemble`.
unfoldable pub export : Clock → Row → Event
export clock (ticks, tid, code_kind) =
    Event.new (ns_since_start clock ticks) tid (code_id_of code_kind) (kind_of code_kind)

unfoldable pub assemble : List EventBatch → List EventBatch → Clock → ℕ → ℕ → ℕ → List Event
assemble history tails clock horizon start end_ticks =
    let streams = streams_of [] (history ++ fresh_tails history tails) in
    map (export clock) (sort_by_ticks (replay_all horizon start end_ticks streams))
