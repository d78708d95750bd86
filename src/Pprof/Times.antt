-- ===== src/Pprof/Times.antt =====
-- The total of all self times of crates/pprof/src/lib.rs.
use trace.Prelude.{
  ℕ, suc, ◌+◌, ◌-◌, ◌^◌, ◌<◌, ◌≡◌, refl, List, [], ◌∷◌, ◌==◌, if◌then◌else◌, length, sum_of, arith,
  ltb, not, ◌&&◌, length-append, ◌∙◌, ap, Bool-cases, inl, inr,
}
use trace.Event.{Event, opens_slice, kind, code_id}
use trace.Pprof.{
  Fold, PprofExporter, add_ns, fold_of, put_fold, popped, is_empty, moved_stack, write_event,
  write_batch, same_stack, precedes,
}

-- The abstract view of a thread: how many frames it has open, and the time of its last event.
abbrev pub Depths : Type 0
Depths = List (ℕ × ℕ × ℕ)

abbrev pub depths : List (ℕ × Fold) → Depths
depths [] = []
depths ((tid, fold) ∷ folds) = (tid, length fold.stack, fold.last_ts) ∷ depths folds

abbrev pub depth_of : Event → Depths → ℕ × ℕ
depth_of ev [] = (0, ev.ts_ns)
depth_of ev ((tid, depth, last) ∷ ds) = if tid == ev.tid then (depth, last) else depth_of ev ds

abbrev pub put_depth : ℕ → ℕ → ℕ → Depths → Depths
put_depth tid depth last [] = (tid, depth, last) ∷ []
put_depth tid depth last ((t, d, l) ∷ ds) =
    if t == tid then (t, depth, last) ∷ ds else (t, d, l) ∷ put_depth tid depth last ds

-- The time that passes in a thread with a frame open, over the events.
unfoldable pub open_time : Depths → List Event → ℕ
open_time ds [] = 0
open_time ds (ev ∷ events) =
    let (depth, last) = depth_of ev ds in
    let next = if opens_slice (kind ev) then suc depth else depth - 1 in
    (if depth == 0 then 0 else ev.ts_ns - last)
    + open_time (put_depth ev.tid next ev.ts_ns ds) events

abbrev pub total : List (List ℕ × ℕ) → ℕ
total self_ns = sum_of (λ s. s.1) self_ns

total-add_ns :
    (stack : List ℕ) (elapsed : ℕ) (self_ns : List (List ℕ × ℕ))
    → total self_ns + elapsed < 2 ^ 64
    → total (add_ns stack elapsed self_ns) ≡ total self_ns + elapsed
unfolding add_ns
total-add_ns stack elapsed [] h = omega arith
total-add_ns stack elapsed ((other, ns) ∷ self_ns) h = elim (Bool-cases (same_stack stack other)) [
  | inl same ↦ rw same (omega arith)
  | inr apart ↦ elim (Bool-cases (precedes stack other)) [
    | inl first ↦ rw (apart, first) (omega arith)
    | inr later ↦
        rw (apart, later) (omega (arith, total-add_ns stack elapsed self_ns (omega arith)))
  ]
]

length-popped : (stack : List ℕ) → length (popped stack) ≡ length stack - 1
length-popped [] = omega arith
length-popped (c ∷ []) = omega arith
length-popped (c ∷ d ∷ stack) = omega (arith, length-popped (d ∷ stack))

depth_of-depths :
    (ev : Event) (folds : List (ℕ × Fold))
    → depth_of ev (depths folds) ≡ (length (fold_of ev folds).stack, (fold_of ev folds).last_ts)
depth_of-depths ev [] = refl
depth_of-depths ev ((tid, fold) ∷ folds) = elim (Bool-cases (tid == ev.tid)) [
  | inl same ↦ rw same
  | inr apart ↦ rw apart (depth_of-depths ev folds)
]

depths-put_fold :
    (tid : ℕ) (fold : Fold) (folds : List (ℕ × Fold))
    → depths (put_fold tid fold folds)
      ≡ put_depth tid (length fold.stack) fold.last_ts (depths folds)
depths-put_fold tid fold [] = refl
depths-put_fold tid fold ((t, old) ∷ folds) = elim (Bool-cases (t == tid)) [
  | inl same ↦ rw same
  | inr apart ↦
      rw apart (ap (◌∷◌ (t, length old.stack, old.last_ts)) (depths-put_fold tid fold folds))
]

length-moved_stack :
    (ev : Event) (stack : List ℕ)
    → length (moved_stack ev stack)
      ≡ (if opens_slice (kind ev) then suc (length stack) else length stack - 1)
length-moved_stack ev stack = elim (Bool-cases (opens_slice (kind ev))) [
  | inl opening ↦ rw opening (omega (arith, length-append stack (code_id ev ∷ [])))
  | inr closing ↦ rw closing (length-popped stack)
]

total-write_event :
    (ev : Event) (x : PprofExporter)
    → let (depth, last) = depth_of ev (depths x.folds) in
      let passed = if depth == 0 then 0 else ev.ts_ns - last in
      total x.self_ns + passed < 2 ^ 64
      → total (write_event ev x).self_ns ≡ total x.self_ns + passed
unfolding write_event
total-write_event ev x h =
    let fold = fold_of ev x.folds in
    let e = depth_of-depths ev x.folds in rw e (go fold.stack (ev.ts_ns - fold.last_ts) (rw e at h))
  where
    go :
        (stack : List ℕ) (elapsed : ℕ)
        → total x.self_ns + (if length stack == 0 then 0 else elapsed) < 2 ^ 64
        → total (
            if ltb 0 elapsed && not (is_empty stack)
            then add_ns stack elapsed x.self_ns
            else x.self_ns)
          ≡ total x.self_ns + (if length stack == 0 then 0 else elapsed)
    go [] elapsed h = ground arith
    go (c ∷ stack) elapsed h = ground (arith, total-add_ns (c ∷ stack) elapsed x.self_ns)

depths-write_event :
    (ev : Event) (x : PprofExporter)
    → let (depth, last) = depth_of ev (depths x.folds) in
      let next = if opens_slice (kind ev) then suc depth else depth - 1 in
      depths (write_event ev x).folds ≡ put_depth ev.tid next ev.ts_ns (depths x.folds)
unfolding write_event
depths-write_event ev x =
    let fold = fold_of ev x.folds in
    let e = depth_of-depths ev x.folds in
    let f : Fold = record { stack = moved_stack ev fold.stack; last_ts = ev.ts_ns } in
    depths-put_fold ev.tid f x.folds
    ∙ rw e
        (ap (λ n. put_depth ev.tid n ev.ts_ns (depths x.folds)) (length-moved_stack ev fold.stack))

-- The self times of all stacks add up to the time that passes in a thread with a frame open, summed
-- over the threads, and added to what they were, if the sum fits an `i64` as its bits.
pub total-write_batch :
    (events : List Event) (x : PprofExporter)
    → total x.self_ns + open_time (depths x.folds) events < 2 ^ 64
    → total (write_batch events x).self_ns ≡ total x.self_ns + open_time (depths x.folds) events
unfolding write_batch open_time
total-write_batch [] x h = omega arith
total-write_batch (ev ∷ events) x h =
    let step = total-write_event ev x (omega arith) in
    let next = depths-write_event ev x in
    let later = ap (λ ds. open_time ds events) next in
    let rest = total-write_batch events (write_event ev x) (omega (arith, step, later)) in
    omega (arith, step, later, rest)
