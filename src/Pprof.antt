-- ===== src/Pprof.antt =====
-- crates/pprof/src/lib.rs: the exporter that adds up, for each stack, the time on its top.
-- An `i64` is its 64 bits; a stack has its outermost frame first.
pub mod Times
pub mod Profile
use Prim.Native.String.{String}
use trace.Prelude.{
  ℕ, ◌+◌, ◌-◌, ◌%◌, ◌^◌, Bool, true, false, not, ◌&&◌, Option, none, some, List, [], ◌∷◌, ◌++◌, map,
  ltb, ◌==◌, if◌then◌else◌, length, add64,
}
use trace.Event.{Event, opens_slice, kind, code_id}
use trace.Sink.{CodeInfo, default_info, same_text}

pub record Fold : Type 0 where
  pub stack : List ℕ
  pub last_ts : ℕ

-- The maps of the exporter: folds by thread, and times by stack in the order of a `BTreeMap`.
pub record PprofExporter : Type 0 where
  pub folds : List (ℕ × Fold)
  pub self_ns : List (List ℕ × ℕ)

unfoldable pub new : PprofExporter
new = record { folds = []; self_ns = [] }

abbrev pub same_stack : List ℕ → List ℕ → Bool
same_stack [] [] = true
same_stack [] (d ∷ ds) = false
same_stack (c ∷ cs) [] = false
same_stack (c ∷ cs) (d ∷ ds) = c == d && same_stack cs ds

-- The order of vectors: by the first place where they differ, and a prefix comes first.
abbrev pub precedes : List ℕ → List ℕ → Bool
precedes cs [] = false
precedes [] (d ∷ ds) = true
precedes (c ∷ cs) (d ∷ ds) = if c == d then precedes cs ds else ltb c d

-- `get_mut` and the addition, or `insert`.
unfoldable pub add_ns : List ℕ → ℕ → List (List ℕ × ℕ) → List (List ℕ × ℕ)
add_ns stack elapsed [] = (stack, elapsed) ∷ []
add_ns stack elapsed ((other, ns) ∷ self_ns) =
    if same_stack stack other
    then (other, add64 ns elapsed) ∷ self_ns
    else if precedes stack other
    then (stack, elapsed) ∷ (other, ns) ∷ self_ns
    else (other, ns) ∷ add_ns stack elapsed self_ns

-- `folds.entry(tid).or_insert(..)`, by value.
abbrev pub fold_of : Event → List (ℕ × Fold) → Fold
fold_of ev [] = record { stack = []; last_ts = ev.ts_ns }
fold_of ev ((tid, fold) ∷ folds) = if tid == ev.tid then fold else fold_of ev folds

abbrev pub put_fold : ℕ → Fold → List (ℕ × Fold) → List (ℕ × Fold)
put_fold tid fold [] = (tid, fold) ∷ []
put_fold tid fold ((t, old) ∷ folds) =
    if t == tid then (t, fold) ∷ folds else (t, old) ∷ put_fold tid fold folds

abbrev pub popped : List ℕ → List ℕ
popped [] = []
popped (c ∷ []) = []
popped (c ∷ d ∷ stack) = c ∷ popped (d ∷ stack)

abbrev pub is_empty : List ℕ → Bool
is_empty [] = true
is_empty (_ ∷ _) = false

abbrev pub moved_stack : Event → List ℕ → List ℕ
moved_stack ev stack = if opens_slice (kind ev) then stack ++ code_id ev ∷ [] else popped stack

-- The body of the loop of `write_batch`, for the fold of the event's thread.
unfoldable pub write_event : Event → PprofExporter → PprofExporter
write_event ev x =
    let fold = fold_of ev x.folds in
    let elapsed = ev.ts_ns - fold.last_ts in
    record {
      folds =
          put_fold ev.tid (record { stack = moved_stack ev fold.stack; last_ts = ev.ts_ns })
            x.folds;
      self_ns =
          if ltb 0 elapsed && not (is_empty fold.stack)
          then add_ns fold.stack elapsed x.self_ns
          else x.self_ns;
    }

unfoldable pub write_batch : List Event → PprofExporter → PprofExporter
write_batch [] x = x
write_batch (ev ∷ events) x = write_batch events (write_event ev x)
