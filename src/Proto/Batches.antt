-- ===== src/Proto/Batches.antt =====
-- The operations `write_batch` and `finish` of crates/proto/src/lib.rs.
use Prim.Native.String.{String}
use trace.Event.{Event, code_id, kind, opens_slice}
use trace.Sink.{CodeInfo}
use trace.Proto.{ProtoExporter, process_sequence_id}
use trace.Proto.Action.{pure, modify, ◌>>=◌, ◌>>◌}
use trace.Proto.Packet.{TracePacket, track_event, instant}
use trace.Proto.Sequences.{
  Outside, Exporting, write_out, flush_out, write_packet, ensure_process, ensure_sequence,
}
use trace.Proto.Templates.{template, push_event}
use trace.Prelude.{List, Option, [], if◌then◌else◌, ltb, none, some, ℕ, ◌∷◌}

module _ {Out : Type 0} (o : Outside Out) where
  open o use {events_dropped}

  -- The body of the loop of `write_batch`.
  unfoldable pub write_event :
      (ℕ → Option CodeInfo) → (ℕ → Option String) → Event → Exporting o (Unit {0})
  write_event codes threads ev = do
    ensure_sequence o ev.tid (threads ev.tid)
    range ← template o ev.tid (code_id ev) (opens_slice (kind ev)) codes
    push_event o ev.ts_ns range

  unfoldable pub write_events :
      (ℕ → Option CodeInfo) → (ℕ → Option String) → List Event → Exporting o (Unit {0})
  write_events codes threads [] = pure tt
  write_events codes threads (ev ∷ events) = do
    write_event codes threads ev
    write_events codes threads events

  -- `self.buf.clear()`
  abbrev pub cleared : ProtoExporter Out → ProtoExporter Out
  cleared x = record x { buf = [] }

  unfoldable pub write_batch :
      (ℕ → Option CodeInfo) → (ℕ → Option String) → List Event → Exporting o (Unit {0})
  write_batch codes threads events = do
    ensure_process o
    modify cleared
    write_events codes threads events
    (λ (x : ProtoExporter Out). write_out o x.buf x)
    flush_out o

  unfoldable pub dropped_packet : ℕ → ProtoExporter Out → TracePacket
  dropped_packet dropped x = record {
    timestamp = 0;
    sequence_id = process_sequence_id x.slot;
    sequence_flags = none;
    defaults = none;
    interned_data = none;
    data_of = some (
        track_event (record {
          kind = instant;
          track_uuid = x.process_uuid;
          name = events_dropped dropped;
          categories = "py" ∷ "dropped" ∷ [];
        }));
  }

  unfoldable pub finish : ℕ → Exporting o (Unit {0})
  unfolding dropped_packet
  finish dropped =
      if ltb 0 dropped
      then (do
        ensure_process o
        (λ (x : ProtoExporter Out). write_packet o (dropped_packet dropped x) x)
        flush_out o)
      else flush_out o
