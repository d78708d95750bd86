-- ===== src/Recording.antt =====
-- crates/py/src/recording.rs: a block of Python code whose events are dumped, and the names of the
-- files that the dumps go to.
pub mod Block
pub mod Names
use Prim.Native.String.{String}
use trace.Recorder.Control.{Control, opened, dump_window}
use trace.Prelude.{
  Bool, List, Option, [], add64, false, if◌then◌else◌, length, none, set, some, true, ℕ, ◌++◌, ◌∷◌,
}
use trace.Prelude.{get_elem?}

-- The result of a block is the index of its cell in `written`.
pub data Stage : Type 0 where
  ready : Stage
  open_at : ℕ → ℕ → ℕ → Stage
  over : Stage

-- What `with_recorder` finds: no run, or one that streams, or one with a recorder, which may be gone.
pub data Running : Type 0 where
  not_running : Running
  streams : Running
  records : Bool → Running

-- `NEXT_WINDOW`, the messages that were sent, oldest first, and the cells of the `Snapshot`s.
pub record World : Type 0 where
  pub next_window : ℕ
  pub sent : List Control
  pub written : List (Option String)

pub record SnapshotBlock : Type 0 where
  pub reason : String
  pub stage : Stage

unfoldable pub new : String → SnapshotBlock
new reason = record { reason = reason; stage = ready }

-- `next_window`, with the id that it gives.
unfoldable pub next_window : World → ℕ × World
next_window w = (w.next_window, record w { next_window = add64 w.next_window 1 })

-- The errors of the two methods.
pub data Refusal : Type 0 where
  runs_once : Refusal
  tracer_not_running : Refusal
  tracer_streams : Refusal
  recorder_gone : Refusal
  no_name : Refusal
  no_dump : Refusal

pub data Result (A : Type 0) : Type 0 where
  value : A → Result A
  error : Refusal → Result A

-- `with_recorder` of tracer.rs, and the sending of a message within it.
unfoldable pub with_recorder :
    {A : Type 0} → Running → (Bool → Result A × World) → World → Result A × World
with_recorder not_running f w = (error tracer_not_running, w)
with_recorder streams f w = (error tracer_streams, w)
with_recorder (records gone) f w = f gone

abbrev pub send : Control → World → World
send msg w = record w { sent = w.sent ++ msg ∷ [] }

-- The part of `__enter__` under `with_recorder`, at the clock's reading.
unfoldable pub open_window : Running → ℕ → World → Result ℕ × World
unfolding with_recorder next_window
open_window running ticks w =
    let (id, v) = next_window w in
    with_recorder running
      (λ gone. if gone then (error recorder_gone, v) else (value id, send (opened id ticks) v)) w

-- Where the window was opened, the stage has its id, its start and its cell.
abbrev pub entered : ℕ → ℕ → Result ℕ × World → SnapshotBlock → Result ℕ × World × SnapshotBlock
entered cell ticks (value id, w) b = (value cell, w, record b { stage = open_at id ticks cell })
entered cell ticks (error e, w) b = (error e, w, b)

-- `__enter__`, which gives the cell of a new `Snapshot`.
unfoldable pub enter : Running → ℕ → World → SnapshotBlock → Result ℕ × World × SnapshotBlock
unfolding open_window
enter running ticks w b = elim b.stage [
  | ready ↦
      entered (length w.written) ticks
        (open_window running ticks (record w { written = w.written ++ none ∷ [] })) b
  | open_at id start cell ↦ (error runs_once, w, b)
  | over ↦ (error runs_once, w, b)
]

-- `std::mem::replace`, put back where the block was not entered.
unfoldable pub leave_stage : Stage → Option (ℕ × ℕ × ℕ) × Stage
leave_stage ready = (none, ready)
leave_stage (open_at id start cell) = (some (id, start, cell), over)
leave_stage over = (none, over)

-- The end of a dump: the path comes back, or the recorder ends without one.
abbrev pub answered : ℕ → Option String → Result (Unit {0}) × World → Result Bool × World
answered cell reply (error e, w) = (error e, w)
answered cell none (value u, w) = (error no_dump, w)
answered cell (some path) (value u, w) =
    (value false, record w { written = set w.written cell (some path) })

-- The reason that goes with the dump: `exc` is `none` for a block that ended well, and else the name
-- of the exception's type, which may fail to be read. `joined` puts a reason and a name together.
unfoldable pub reason_of :
    (String → String → String) → String → Option (Option String) → Option String
reason_of joined reason none = some reason
reason_of joined reason (some none) = none
reason_of joined reason (some (some name)) = some (joined reason name)

unfoldable pub dump_block :
    Running → ℕ → Option String → Option String → ℕ × ℕ × ℕ → World → Result Bool × World
unfolding with_recorder
dump_block running ticks none reply opening w = (error no_name, w)
dump_block running ticks (some reason) reply (id, start, cell) w = answered cell reply (
    with_recorder running
      (λ gone.
        if gone
        then (error recorder_gone, w)
        else (value tt, send (dump_window id start ticks reason true) w))
      w)

abbrev pub leave :
    (ℕ × ℕ × ℕ → World → Result Bool × World) → Option (ℕ × ℕ × ℕ) → World → Result Bool × World
leave dump none w = (value false, w)
leave dump (some opening) w = dump opening w

-- `__exit__`.
unfoldable pub exit :
    (String → String → String)
    → Running
    → ℕ
    → Option (Option String)
    → Option String
    → World
    → SnapshotBlock
    → Result Bool × World × SnapshotBlock
unfolding leave_stage dump_block reason_of
exit joined running ticks exc reply w b =
    let (opening, stage) = leave_stage b.stage in
    let (result, v) =
      leave (dump_block running ticks (reason_of joined b.reason exc) reply) opening w in
    (result, v, record b { stage = stage })

-- `Snapshot::path`: `none` while the block is still open.
unfoldable pub path : ℕ → World → Option String
path cell w = elim (get_elem? w.written cell) [ none ↦ none | some written ↦ written ]
