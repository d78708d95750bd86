-- ===== src/Proto/Sequences.antt =====
-- Packets of crates/proto/src/lib.rs that are messages: the process, the sequences of the threads, and
-- the ids within them.
use Prim.Native.String.{String}
use trace.Sink.{CodeInfo}
use trace.Varint.{varint}
use trace.Proto.{
  ProtoExporter, Sequence, find_in, update_in, process_sequence_id, process_sequence,
  sequences_per_slot, packet_tag, tag_sequence_id, needs_state_field, needs_incremental_state,
  incremental_state_cleared, category_iid,
}
use trace.Proto.Action.{Action, Outcome, done, failed, pure, or_panic, modify, ◌>>=◌, ◌>>◌}
use trace.Proto.Packet.{TracePacket, SourceLocation, track_descriptor}
use trace.Prelude.{
  Bool, List, Option, [], add64, false, if◌then◌else◌, length, none, some, true, ℕ, ◌%◌, ◌*◌, ◌++◌,
  ◌+◌, ◌^◌, ◌∷◌,
}

-- `encode` is that of `prost`, and fails where it returns an error. `write_all` is that of the writer,
-- and tells whether it succeeded. `python_pid` is the text `python:{pid}`.
pub record Outside (Out : Type 0) : Type 0 where
  pub encode : TracePacket → Option (List ℕ)
  pub write_all : List ℕ → Out → Bool × Out
  pub flush : Out → Bool × Out
  pub python_pid : ℕ → String
  pub events_dropped : ℕ → String

module _ {Out : Type 0} (o : Outside Out) where
  open o use {encode, write_all, flush, python_pid}

  abbrev pub Exporting : Type 0 → Type 0
  Exporting A = Action (ProtoExporter Out) A

  unfoldable pub wrote : Bool × Out → Exporting (Unit {0})
  wrote (true, out) x = (done tt, record x { out = out })
  wrote (false, out) x = (failed, record x { out = out })

  unfoldable pub write_out : List ℕ → Exporting (Unit {0})
  unfolding wrote
  write_out bytes x = wrote (write_all bytes x.out) x

  unfoldable pub flush_out : Exporting (Unit {0})
  unfolding wrote
  flush_out x = wrote (flush x.out) x

  unfoldable pub encoded : Option (List ℕ) → Exporting (List ℕ)
  encoded none x = (failed, x)
  encoded (some bytes) x = (done bytes, x)

  unfoldable pub write_packet : TracePacket → Exporting (Unit {0})
  unfolding encoded
  write_packet packet = do
    scratch ← encoded (encode packet)
    body_len ← or_panic (varint (length scratch))
    write_out (packet_tag ∷ body_len)
    write_out scratch

  -- The name and the locations of a code object under an id.
  abbrev pub name_of : Option CodeInfo → String
  name_of none = "<unknown>"
  name_of (some info) = info.qualname

  abbrev pub locations_of : ℕ → Option CodeInfo → List SourceLocation
  locations_of iid none = []
  locations_of iid (some info) =
      record { iid = iid; file_name = info.filename; line_number = info.firstlineno } ∷ []

  abbrev pub has_location : Option CodeInfo → Bool
  has_location none = false
  has_location (some info) = true

  -- The packet that gives a code object its id.
  abbrev pub interning : ℕ → ℕ → Option CodeInfo → TracePacket
  interning iid sequence info = record {
    timestamp = 0;
    sequence_id = sequence;
    sequence_flags = some needs_incremental_state;
    defaults = none;
    interned_data = some (record {
      event_categories = [];
      event_names = (iid, name_of info) ∷ [];
      source_locations = locations_of iid info;
    });
    data_of = none;
  }

  abbrev pub learned : ℕ → ℕ → ℕ × Bool → ProtoExporter Out → ProtoExporter Out
  learned tid code_id entry x = record x {
    sequences =
        update_in tid (λ s. record s { code_iids = (code_id, entry) ∷ s.code_iids }) x.sequences;
  }

  unfoldable pub new_iid : ℕ → ℕ → Option CodeInfo → Sequence → Exporting (ℕ × Bool)
  new_iid tid code_id info seq = do
    let iid = add64 (length seq.code_iids) 1
    write_packet (interning iid seq.id info)
    _ ← (λ (x : ProtoExporter Out). or_panic (find_in tid x.sequences) x)
    modify (learned tid code_id (iid, has_location info))
    pure (iid, has_location info)

  unfoldable pub known_iid :
      ℕ → ℕ → Option CodeInfo → Sequence → Option (ℕ × Bool) → Exporting (ℕ × Bool)
  unfolding new_iid
  known_iid tid code_id info seq (some entry) = pure entry
  known_iid tid code_id info seq none = new_iid tid code_id info seq

  -- `codes` is asked only where the code object has no id yet.
  unfoldable pub code_iid : ℕ → ℕ → (ℕ → Option CodeInfo) → Exporting (ℕ × Bool)
  unfolding known_iid
  code_iid tid code_id codes = do
    seq ← (λ (x : ProtoExporter Out). or_panic (find_in tid x.sequences) x)
    known_iid tid code_id (codes code_id) seq (find_in code_id seq.code_iids)

  unfoldable pub process_packet : ProtoExporter Out → TracePacket
  process_packet x = record {
    timestamp = 0;
    sequence_id = process_sequence_id x.slot;
    sequence_flags = some incremental_state_cleared;
    defaults = none;
    interned_data = none;
    data_of = some (
        track_descriptor (record {
          uuid = x.process_uuid;
          parent_uuid = none;
          name = some (python_pid x.pid);
          process = some (x.pid, "python");
          thread = none;
        }));
  }

  unfoldable pub ensure_process : Exporting (Unit {0})
  unfolding process_packet
  ensure_process x =
      if x.process_emitted
      then (done tt, x)
      else write_packet (process_packet x) (record x { process_emitted = true })

  -- The bytes that every event of a sequence has.
  abbrev pub header_of : List ℕ → List ℕ
  header_of id = tag_sequence_id ∷ id ++ needs_state_field

  unfoldable pub sequence_packet : ℕ → ℕ → ℕ → Option String → ProtoExporter Out → TracePacket
  sequence_packet id track_uuid tid name x = record {
    timestamp = 0;
    sequence_id = id;
    sequence_flags = some incremental_state_cleared;
    defaults = some track_uuid;
    interned_data = some (record {
      event_categories = (category_iid, "py") ∷ [];
      event_names = [];
      source_locations = [];
    });
    data_of = some (
        track_descriptor (record {
          uuid = track_uuid;
          parent_uuid = some x.process_uuid;
          name = none;
          process = none;
          thread = some (x.pid, tid, name);
        }));
  }

  -- The id and the track of the sequence with an index.
  abbrev pub sequence_id_of : ℕ → ℕ → ℕ
  sequence_id_of slot index =
      (slot * sequences_per_slot + process_sequence + 1 + index % 2 ^ 32) % 2 ^ 32

  abbrev pub track_uuid_of : ℕ → ℕ → ℕ
  track_uuid_of process_uuid index = add64 (add64 process_uuid 1) index

  abbrev pub added : ℕ → Sequence → ProtoExporter Out → ProtoExporter Out
  added tid seq x = record x { sequences = x.sequences ++ (tid, seq) ∷ [] }

  unfoldable pub new_sequence :
      ℕ → Option String → ProtoExporter Out → Outcome (Unit {0}) × ProtoExporter Out
  unfolding sequence_packet
  new_sequence tid name x =
      let index = length x.sequences in
      let id = sequence_id_of x.slot index in
      (do
        bytes ← or_panic (varint id)
        write_packet (sequence_packet id (track_uuid_of x.process_uuid index) tid name x)
        modify (added tid (record { id = id; header = header_of bytes; code_iids = [] })))
        x

  unfoldable pub known_sequence : ℕ → Option String → Option Sequence → Exporting (Unit {0})
  unfolding new_sequence
  known_sequence tid name (some seq) x = (done tt, x)
  known_sequence tid name none x = new_sequence tid name x

  unfoldable pub ensure_sequence : ℕ → Option String → Exporting (Unit {0})
  unfolding known_sequence
  ensure_sequence tid name x = known_sequence tid name (find_in tid x.sequences) x
