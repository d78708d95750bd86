-- ===== src/Json/Exporter.antt =====
-- `JsonExporter` of crates/json/src/lib.rs over a shared file: `create`, `append`, and the `Exporter`.
-- The file is its bytes, and an `Attempt` tells how the system's part of a write ends.
pub mod Files
use Prim.Native.String.{String}
use trace.Prelude.{ℕ}
use trace.Output.{SharedFile, Attempt, whole, flush, write, create, append}
use trace.Json.Records.{Template, bind}
use trace.Json.Records
use trace.Prelude.{
  Bool, Bool-cases, List, Option, [], append-nil, append_assoc, if◌then◌else◌, inl, inr, ltb, none,
  some, sym, ◌++◌, ◌∷◌, ◌≡◌,
}
use trace.Sink.{CodeInfo}
use trace.Event.{Event}

pub record JsonExporter : Type 0 where
  pub out : SharedFile
  pub pid : ℕ
  pub templates : List (ℕ × Template)

-- `new`; the process has the id.
unfoldable pub new : SharedFile → ℕ → JsonExporter
new out process_id = record { out = out; pid = process_id; templates = [] }

unfoldable pub with_pid : ℕ → JsonExporter → JsonExporter
with_pid pid e = record e { pid = pid }

-- What is put out beside the events: the arguments of the two `json!`.
pub data Entry : Type 0 where
  thread_name : ℕ → ℕ → String → Entry
  dropped_events : ℕ → ℕ → Entry

-- `JsonExporter::create`: the exporter if all goes well, and the file.
begun : Attempt → Bool → ℕ → Option SharedFile × List ℕ → Option JsonExporter × List ℕ
begun a flushes pid (none, file) = (none, file)
begun a flushes pid (some out, file) =
    let (ok, file', out') = flush a flushes file (write (91 ∷ []) out) in
    (if ok then some (new out' pid) else none, file')

unfoldable pub create_file :
    Bool → Bool → Attempt → Bool → ℕ → List ℕ → Option JsonExporter × List ℕ
unfolding begun
create_file creates opens a flushes pid file = begun a flushes pid (create creates opens file)

-- `JsonExporter::append`
resumed : ℕ → Option SharedFile × List ℕ → Option JsonExporter × List ℕ
resumed pid (none, file) = (none, file)
resumed pid (some out, file) = (some (new out pid), file)

unfoldable pub append_file : Bool → ℕ → List ℕ → Option JsonExporter × List ℕ
unfolding resumed
append_file opens pid file = resumed pid (append opens file)

module _ (utf8 : String → List ℕ) (to_writer : Entry → List ℕ) where
  -- `write_batch`: whether it succeeds, the file and the exporter; `none` is a number that does not
  -- fit its digits.
  unfoldable pub write_batch :
      (ℕ → Option CodeInfo)
      → List Event
      → Attempt
      → Bool
      → List ℕ
      → JsonExporter
      → Option (Bool × List ℕ × JsonExporter)
  write_batch codes events a flushes file e =
      bind (Records.write_batch utf8 codes e.pid events e.templates) (λ (buf, templates).
        let (ok, file', out) = flush a flushes file (write buf e.out) in
        some (ok, file', record e { out = out; templates = templates }))

  -- An entry, and the comma behind it.
  unfoldable pub put_entry : Entry → SharedFile → SharedFile
  put_entry entry out = write (44 ∷ []) (write (to_writer entry) out)

  -- The loop over the threads.
  unfoldable pub put_threads : ℕ → List (ℕ × String) → SharedFile → SharedFile
  unfolding put_entry
  put_threads pid [] out = out
  put_threads pid ((tid, name) ∷ threads) out =
      put_threads pid threads (put_entry (thread_name pid tid name) out)

  unfoldable pub put_dropped : ℕ → ℕ → SharedFile → SharedFile
  unfolding put_entry
  put_dropped pid dropped out =
      if ltb 0 dropped then put_entry (dropped_events pid dropped) out else out

  unfoldable pub finish :
      List (ℕ × String) → ℕ → Attempt → Bool → List ℕ → JsonExporter → Bool × List ℕ × JsonExporter
  unfolding put_threads put_dropped
  finish threads dropped a flushes file e =
      let (ok, file', out) =
        flush a flushes file (put_dropped e.pid dropped (put_threads e.pid threads e.out)) in
      (ok, file', record e { out = out })
