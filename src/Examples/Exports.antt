-- ===== src/Examples/Exports.antt =====
-- An exporter of Perfetto traces whose writer keeps the bytes.
use trace.Proto.{ProtoExporter, new, packet_tag}
use trace.Proto.Sequences.{Outside}
use trace.Proto.Packet.{TracePacket}
use trace.Proto.Action.{After, done}
use trace.Proto.Safety.{IsSafe}
use trace.Proto.Exports.{new-IsSafe, write_batch-IsSafe}
use trace.Proto.Batches.{write_batch}
use trace.Prelude.{
  List, [], arith, length, none, some, some-injective, sym, true, ℕ, ◌++◌, ◌<◌, ◌^◌, ◌∷◌, ◌≡◌,
}
use trace.Event.{Event}
use trace.Varint.{varint}
use trace.Proto.Frames.{payload, push_event-framed}
use trace.Proto.Templates.{push_event, pushed}

abbrev outside : Outside (List ℕ)
outside = record {
  encode = λ packet. some (8 ∷ 1 ∷ []);
  write_all = λ bytes out. (true, out ++ bytes);
  flush = λ out. (true, out);
  python_pid = λ pid. "python";
  events_dropped = λ n. "dropped";
}

outside_short :
    (p : TracePacket) (bytes : List ℕ) → outside.encode p ≡ some bytes → length bytes < 2 ^ 64
outside_short p bytes e =
    let q : 8 ∷ 1 ∷ [] ≡ bytes = some-injective _ _ e in rw (sym q) (omega arith)

abbrev two_events : List Event
two_events =
    record { ts_ns = 1000; tid = 4; code_kind = 0 }
    ∷ record { ts_ns = 1500; tid = 4; code_kind = 1 }
    ∷ []

write_batch-IsSafe_example :
    After
      (λ u y. IsSafe outside outside_short 4096 y)
      (write_batch outside (λ id. none) (λ tid. some "main") two_events (new [] 77))
write_batch-IsSafe_example =
    write_batch-IsSafe outside outside_short 4096 (λ id. none) (λ tid. some "main") two_events
      (new [] 77) (omega arith, (omega arith, tt))
      (new-IsSafe outside outside_short 4224 [] 77 (omega arith))

abbrev exporter : ProtoExporter (List ℕ)
exporter = record (new [] 77) { template_bytes = 80 ∷ 1 ∷ 88 ∷ 2 ∷ [] }

push_event-framed_example :
    (ts size : List ℕ) × (varint 1000 ≡ some ts)
    × (varint (length (payload outside ts (1, 3) exporter)) ≡ some size)
    × (push_event outside 1000 (1, 3) exporter ≡ (
      done tt,
      pushed outside (packet_tag ∷ size ++ payload outside ts (1, 3) exporter) exporter,
    ))
push_event-framed_example =
    push_event-framed outside 1000 (1, 3) exporter (omega arith) (omega arith) (omega arith)
