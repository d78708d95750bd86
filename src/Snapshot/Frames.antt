-- ===== src/Snapshot/Frames.antt =====
-- What `replay` of crates/core/src/snapshot.rs shows of a stream, told without a stack: which slices a
-- stream leaves open, and which of its closes have no open.
use trace.Prelude.{ℕ}
use trace.Event.{begin, pack_code_kind, code_id_of}
use trace.Snapshot.{Stamp, Row, opens, oldest_first, moved, inside, is_empty, open_rows, row, pop}
use trace.Prelude.{
  Bool-cases, List, [], ap, append-nil, drop, false, if◌then◌else◌, inl, inr, map, not, refl, suc,
  sym, zero, ◌&&◌, ◌++◌, ◌-◌, ◌==◌, ◌∙◌, ◌∷◌, ◌≡◌,
}
use trace.Prelude.{Bool, append_assoc, true}
use trace.Prelude.{arith}

-- The closes of a stream that no open of the stream is for.
unfoldable pub closing : List Stamp → ℕ
closing [] = 0
closing ((_, code_kind) ∷ stream) =
    let rest = closing stream in if opens code_kind then rest - 1 else suc rest

-- The opens of a stream that no close of the stream is for, in its order: the outermost comes first.
unfoldable pub left_open : List Stamp → List Stamp
left_open [] = []
left_open ((ticks, code_kind) ∷ stream) =
    let rest = left_open stream in
    if opens code_kind && closing stream == 0 then (ticks, code_kind) ∷ rest else rest

-- The rows of a stream that comes behind another: each event, and before a close that no open is left
-- for, an open of its slice at the horizon.
unfoldable pub shown_rows : ℕ → ℕ → List Stamp → List Stamp → List Row
shown_rows tid horizon_ticks before [] = []
shown_rows tid horizon_ticks before ((ticks, code_kind) ∷ stream) =
    let rest = shown_rows tid horizon_ticks (before ++ (ticks, code_kind) ∷ []) stream in
    (if not (opens code_kind) && is_empty (left_open before)
      then (horizon_ticks, tid, pack_code_kind (code_id_of code_kind) begin) ∷ []
      else [])
    ++ (ticks, tid, code_kind) ∷ rest

-- The stack after events that only move it.
abbrev pub stack_after : List Stamp → List Stamp → List Stamp
stack_after stack [] = stack
stack_after stack (x ∷ stream) = stack_after (moved x stack) stream

-- The rows of the events in the window.
abbrev pub rows_within : ℕ → ℕ → List Stamp → List Stamp → List Row
rows_within tid horizon_ticks stack [] = []
rows_within tid horizon_ticks stack (x ∷ stream) =
    let (out, after) = inside tid horizon_ticks x stack in
    out ++ rows_within tid horizon_ticks after stream

drop-pop : (n : ℕ) (stack : List Stamp) → drop n (pop stack) ≡ drop (suc n) stack
drop-pop zero [] = refl
drop-pop (suc n) [] = refl
drop-pop n (x ∷ stack) = refl

drop-nil : (n : ℕ) → drop {A = Stamp} n [] ≡ []
drop-nil zero = refl
drop-nil (suc n) = refl

-- One event more at the front, by what the rest does to the stack behind it.
oldest_first-moved :
    (ticks code_kind n : ℕ) (stack stream : List Stamp)
    → closing stream ≡ n
    → oldest_first (stack_after (moved (ticks, code_kind) stack) stream)
      ≡ oldest_first (drop (closing stream) (moved (ticks, code_kind) stack)) ++ left_open stream
    → oldest_first (stack_after (moved (ticks, code_kind) stack) stream)
      ≡ oldest_first (drop (closing ((ticks, code_kind) ∷ stream)) stack)
        ++ left_open ((ticks, code_kind) ∷ stream)
unfolding closing left_open
oldest_first-moved ticks code_kind n stack stream e h = elim (Bool-cases (opens code_kind)) [
  | inl opened ↦ after_open n e opened
  | inr closed ↦ rw closed ((rw closed at h) ∙ rw (drop-pop (closing stream) stack) refl)
]
  where
    after_open :
        (n : ℕ)
        → closing stream ≡ n
        → opens code_kind ≡ true
        → oldest_first (stack_after (moved (ticks, code_kind) stack) stream)
          ≡ oldest_first (drop (closing ((ticks, code_kind) ∷ stream)) stack)
            ++ left_open ((ticks, code_kind) ∷ stream)
    after_open zero e opened =
        rw (opened, e)
          ((rw (opened, e) at h)
            ∙ append_assoc (oldest_first stack) ((ticks, code_kind) ∷ []) (left_open stream))
    after_open (suc n) e opened =
        let less : suc n - 1 ≡ n = omega arith in
        let apart : (suc n == 0) ≡ false = ground arith in
        rw (opened, e, less, apart) (rw (opened, e) at h)

oldest_first-stack_after :
    (stack stream : List Stamp)
    → oldest_first (stack_after stack stream)
      ≡ oldest_first (drop (closing stream) stack) ++ left_open stream
unfolding closing left_open
oldest_first-stack_after stack [] = sym (append-nil (oldest_first stack))
oldest_first-stack_after stack ((ticks, code_kind) ∷ stream) =
    oldest_first-moved ticks code_kind (closing stream) stack stream refl
      (oldest_first-stack_after (moved (ticks, code_kind) stack) stream)

oldest_first-left_open :
    (stream : List Stamp) → oldest_first (stack_after [] stream) ≡ left_open stream
oldest_first-left_open stream =
    oldest_first-stack_after [] stream
    ∙ ap (λ s. oldest_first s ++ left_open stream) (drop-nil (closing stream))

is_empty-append : (xs : List Stamp) (x : Stamp) → is_empty (xs ++ x ∷ []) ≡ false
is_empty-append [] x = refl
is_empty-append (y ∷ xs) x = refl

is_empty-oldest_first : (stack : List Stamp) → is_empty (oldest_first stack) ≡ is_empty stack
is_empty-oldest_first [] = refl
is_empty-oldest_first (x ∷ stack) = is_empty-append (oldest_first stack) x

stack_after-append :
    (stack before : List Stamp) (x : Stamp)
    → stack_after stack (before ++ x ∷ []) ≡ moved x (stack_after stack before)
stack_after-append stack [] x = refl
stack_after-append stack (y ∷ before) x = stack_after-append (moved y stack) before x

-- An event within the window, by whether a frame is open.
inside_lem :
    (tid horizon_ticks ticks code_kind : ℕ) (stack : List Stamp)
    → inside tid horizon_ticks (ticks, code_kind) stack ≡ (
      (if not (opens code_kind) && is_empty stack
            then (horizon_ticks, tid, pack_code_kind (code_id_of code_kind) begin) ∷ []
            else [])
          ++ (ticks, tid, code_kind) ∷ [],
      moved (ticks, code_kind) stack,
    )
inside_lem tid horizon_ticks ticks code_kind [] = elim (Bool-cases (opens code_kind)) [
  | inl opened ↦ rw opened refl
  | inr closed ↦ rw closed refl
]
inside_lem tid horizon_ticks ticks code_kind (x ∷ stack) = elim (Bool-cases (opens code_kind)) [
  | inl opened ↦ rw opened refl
  | inr closed ↦ rw closed refl
]

pub rows_within-shown_rows :
    (tid horizon_ticks : ℕ) (before stream : List Stamp)
    → rows_within tid horizon_ticks (stack_after [] before) stream
      ≡ shown_rows tid horizon_ticks before stream
unfolding shown_rows
rows_within-shown_rows tid horizon_ticks before [] = refl
rows_within-shown_rows tid horizon_ticks before ((ticks, code_kind) ∷ stream) =
    let x : Stamp = (ticks, code_kind) in
    let stack = stack_after [] before in
    let h = rows_within-shown_rows tid horizon_ticks (before ++ x ∷ []) stream in
    let none_open : is_empty stack ≡ is_empty (left_open before) =
      sym (is_empty-oldest_first stack) ∙ ap is_empty (oldest_first-left_open before) in
    let opening : Bool → List Row = λ none_left.
      if not (opens code_kind) && none_left
      then (horizon_ticks, tid, pack_code_kind (code_id_of code_kind) begin) ∷ []
      else [] in
    let here : Row = (ticks, tid, code_kind) in
    ap (λ (r : List Row × List Stamp). r.0 ++ rows_within tid horizon_ticks (r.1) stream)
      (inside_lem tid horizon_ticks ticks code_kind stack)
    ∙ append_assoc (opening (is_empty stack)) (here ∷ [])
        (rows_within tid horizon_ticks (moved x stack) stream)
    ∙ ap (λ s. opening (is_empty stack) ++ here ∷ rows_within tid horizon_ticks s stream)
        (sym (stack_after-append [] before x))
    ∙ ap (λ rows. opening (is_empty stack) ++ here ∷ rows) h
    ∙ ap (λ b. opening b ++ here ∷ shown_rows tid horizon_ticks (before ++ x ∷ []) stream) none_open

-- The frames that a stream leaves open go out in its order.
pub open_rows-left_open :
    (tid : ℕ) (stream : List Stamp)
    → open_rows tid (stack_after [] stream)
      ≡ map (λ (x : Stamp). (x.0, tid, x.1)) (left_open stream)
open_rows-left_open tid stream = ap (λ frames. map (row tid) frames) (oldest_first-left_open stream)
