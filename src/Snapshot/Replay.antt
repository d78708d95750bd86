-- ===== src/Snapshot/Replay.antt =====
-- What `replay` of crates/core/src/snapshot.rs puts out for one thread.
use trace.Prelude.{ℕ, ◌+◌, ◌-◌, ◌≤◌, ◌<◌, ◌≡◌, refl, true, false, List, [], ◌∷◌, ◌++◌, All, ap}
use trace.Event.{begin, pack_code_kind, code_id_of, opens_slice}
use trace.Event.Words.{unpack-pack_code_kind}
use trace.Snapshot.{Stamp, Row, row, opens, oldest_first, open_rows, owed, inside}
use trace.Snapshot.Frames.{
  stack_after, rows_within, left_open, shown_rows, open_rows-left_open, rows_within-shown_rows,
}
use trace.Snapshot.{replay_from, replay, moved}
use trace.Prelude.{Option, length, some, suc, arith, lt→ltb, add-zero, le→ltb, ◌∙◌, Bool, sym, ◌==◌}
use trace.Prelude.{if◌then◌else◌, map-append, Bool-cases, none, append-nil, append_assoc, ltb, inl}
use trace.Prelude.{inr, tests}
use trace.Prelude.{map}

-- Reading rows with a count of open slices: `none` where one closes and none is open.
unfoldable pub nest : ℕ → List Row → Option ℕ
nest depth [] = some depth
nest depth ((ticks, tid, code_kind) ∷ rows) =
    let inner = nest (suc depth) rows in
    let outer = nest (depth - 1) rows in
    if opens code_kind then inner else if depth == 0 then none else outer

-- Ticks that never go back, from `lo` on.
abbrev pub Rises : ℕ → List Stamp → Type 0
Rises lo [] = Unit {0}
Rises lo ((ticks, _) ∷ stream) = (lo ≤ ticks) × Rises ticks stream

abbrev IsOpen : Stamp → Type 0
IsOpen (ticks, code_kind) = opens code_kind ≡ true

opens-synthesized : (code_id : ℕ) → opens (pack_code_kind code_id begin) ≡ true
unfolding opens
opens-synthesized code_id =
    rw ((unpack-pack_code_kind code_id begin).1) (unfold opens_slice in refl)

moved-All : (x : Stamp) (stack : List Stamp) → All IsOpen stack → All IsOpen (moved x stack)
moved-All (ticks, code_kind) [] h = ground arith
moved-All (ticks, code_kind) (y ∷ stack) h = ground arith

-- The frames of a stack are so many open slices.
nest-open_rows :
    (tid depth : ℕ) (stack : List Stamp) (rows : List Row)
    → All IsOpen stack
    → nest depth (open_rows tid stack ++ rows) ≡ nest (depth + length stack) rows
unfolding nest
nest-open_rows tid depth [] rows h = rw add-zero
nest-open_rows tid depth ((ticks, code_kind) ∷ stack) rows h =
    let top : Row = (ticks, tid, code_kind) in
    let e : depth + suc (length stack) ≡ suc (depth + length stack) = omega arith in
    rw
      (
        map-append (row tid) (oldest_first stack) ((ticks, code_kind) ∷ []),
        append_assoc (open_rows tid stack) (top ∷ []) rows,
        e,
      )
      (nest-open_rows tid depth stack (top ∷ rows) h.1 ∙ rw (h.0))

-- One event within the window never closes more than is open, and leaves as many slices open as
-- frames on the stack.
nest-inside :
    (tid horizon_ticks : ℕ) (x : Stamp) (stack : List Stamp) (rows : List Row)
    → All IsOpen stack
    → let (out, stack') = inside tid horizon_ticks x stack in
      (nest (length stack) (out ++ rows) ≡ nest (length stack') rows) × All IsOpen stack'
unfolding nest
nest-inside tid horizon_ticks (ticks, code_kind) [] rows h =
    ground (arith, opens-synthesized (code_id_of code_kind))
nest-inside tid horizon_ticks (ticks, code_kind) (y ∷ stack) rows h = ground arith

-- From no open slice on.
shown :
    (tid : ℕ) (stack : List Stamp) (rows : List Row)
    → All IsOpen stack
    → nest 0 (open_rows tid stack ++ rows) ≡ nest (length stack) rows
shown tid stack rows h =
    let e : 0 + length stack ≡ length stack = omega arith in
    nest-open_rows tid 0 stack rows h ∙ rw e refl

module _ (tid horizon_ticks start_ticks end_ticks : ℕ) where
  nest-later :
      (lo : ℕ) (stack stream : List Stamp)
      → All IsOpen stack
      → start_ticks ≤ lo
      → Rises lo stream
      → (n : ℕ) × (nest
            (length stack)
            (replay_from tid horizon_ticks start_ticks end_ticks true stack stream)
          ≡ some n)
  unfolding replay_from
  nest-later lo stack [] h from up = (length stack, unfold nest in refl)
  nest-later lo stack (x ∷ stream) h from up =
      let (out, after) = inside tid horizon_ticks x stack in
      let rest = replay_from tid horizon_ticks start_ticks end_ticks true after stream in
      let (same, open_after) = nest-inside tid horizon_ticks x stack rest h in
      let (n, e) = nest-later x.0 after stream open_after (omega arith) up.1 in
      let reached = le→ltb x.0 start_ticks (omega arith) in
      elim (Bool-cases (ltb end_ticks x.0)) [
        | inl past ↦ (length stack, rw (reached, past) (unfold nest in refl))
        | inr within ↦ (n, rw (reached, within) (same ∙ e))
      ]

  nest-replay_from :
      (lo : ℕ) (stack stream : List Stamp)
      → All IsOpen stack
      → Rises lo stream
      → (n : ℕ) × (nest 0 (replay_from tid horizon_ticks start_ticks end_ticks false stack stream)
          ≡ some n)
  unfolding replay_from
  nest-replay_from lo stack [] h up = (
    length stack,
    ap (nest 0) (sym (append-nil (open_rows tid stack)))
        ∙ shown tid stack [] h
        ∙ (unfold nest in refl),
  )
  nest-replay_from lo stack (x ∷ stream) h up =
      let (out, after) = inside tid horizon_ticks x stack in
      let rest = replay_from tid horizon_ticks start_ticks end_ticks true after stream in
      let (same, open_after) = nest-inside tid horizon_ticks x stack rest h in
      elim (Bool-cases (ltb x.0 start_ticks)) [
        | inl early ↦
            let (n, e) = nest-replay_from x.0 (moved x stack) stream (moved-All x stack h) up.1 in
            (n, rw early e)
        | inr reached ↦
            let (n, e) = nest-later x.0 after stream open_after (omega tests) up.1 in
            elim (Bool-cases (ltb end_ticks x.0)) [
              | inl past ↦
                  (length stack, rw (reached, past) (shown tid stack [] h ∙ (unfold nest in refl)))
              | inr within ↦ (n, rw (reached, within) (shown tid stack (out ++ rest) h ∙ same ∙ e))
            ]
      ]

  -- Where the ticks of a thread never go back, what `replay` puts out for it never closes a slice
  -- that it has not opened.
  pub nest-replay :
      (stream : List Stamp)
      → Rises 0 stream
      → (n : ℕ) × (nest 0 (replay tid horizon_ticks start_ticks end_ticks stream) ≡ some n)
  unfolding replay
  nest-replay stream up = nest-replay_from 0 [] stream tt up

  -- A stream that is past the window at once, or at its end.
  abbrev pub IsPast : List Stamp → Type 0
  IsPast [] = Unit {0}
  IsPast (x ∷ _) = (start_ticks ≤ x.0) × (end_ticks < x.0)

  replay_from_before :
      (stack before rest : List Stamp)
      → All (λ x. x.0 < start_ticks) before
      → replay_from tid horizon_ticks start_ticks end_ticks false stack (before ++ rest)
        ≡ replay_from tid horizon_ticks start_ticks end_ticks false (stack_after stack before) rest
  unfolding replay_from
  replay_from_before stack [] rest h = refl
  replay_from_before stack (x ∷ before) rest h =
      rw (lt→ltb x.0 start_ticks h.0) (replay_from_before (moved x stack) before rest h.1)

  replay_from_within :
      (emitted : Bool) (stack within after : List Stamp)
      → All (λ x. (start_ticks ≤ x.0) × (x.0 ≤ end_ticks)) within
      → IsPast after
      → replay_from tid horizon_ticks start_ticks end_ticks emitted stack (within ++ after)
        ≡ owed tid emitted stack ++ rows_within tid horizon_ticks stack within
  unfolding replay_from
  replay_from_within emitted stack [] [] h past = sym (append-nil (owed tid emitted stack))
  replay_from_within emitted stack [] (x ∷ after) h past =
      rw (le→ltb x.0 start_ticks past.0, lt→ltb end_ticks x.0 past.1)
  replay_from_within emitted stack (x ∷ within) after h past =
      let (out, next) = inside tid horizon_ticks x stack in
      rw (le→ltb x.0 start_ticks h.0.0, le→ltb end_ticks x.0 h.0.1)
        (ap (λ rows. owed tid emitted stack ++ (out ++ rows))
          (replay_from_within true next within after h.1 past))

  -- A stream that is first before, then inside and then past the window gives the opens of its first
  -- part that are not closed in it, in their order, so that the outermost comes first, and then the rows
  -- of its second part: each event, and an open at the horizon before each close for which nothing is left
  -- open by then. The part past the window gives nothing.
  pub replay_split :
      (before within after : List Stamp)
      → All (λ x. x.0 < start_ticks) before
      → All (λ x. (start_ticks ≤ x.0) × (x.0 ≤ end_ticks)) within
      → IsPast after
      → replay tid horizon_ticks start_ticks end_ticks (before ++ (within ++ after))
        ≡ map (λ (x : Stamp). (x.0, tid, x.1)) (left_open before)
          ++ shown_rows tid horizon_ticks before within
  unfolding replay
  replay_split before within after h k past =
      replay_from_before [] before (within ++ after) h
      ∙ replay_from_within false (stack_after [] before) within after k past
      ∙ ap (λ rows. rows ++ rows_within tid horizon_ticks (stack_after [] before) within)
          (open_rows-left_open tid before)
      ∙ ap (λ rows. map (λ (x : Stamp). (x.0, tid, x.1)) (left_open before) ++ rows)
          (rows_within-shown_rows tid horizon_ticks before within)
