-- ===== src/Proto/Exports.antt =====
-- How `write_batch` of crates/proto/src/lib.rs ends.
use trace.Proto.Safety.{
  IsSafe, Ready, write_packet-After, write_out-After, ensure_sequence-After, IsSafe-IgnoresOut,
}
use trace.Proto.Panics.{template-After, push_event-After}
use trace.Proto.Fields.{InBounds}
use trace.Prelude.{
  All, Bool, List, Option, [], arith, false, length, some, true, ℕ, ◌*◌, ◌+◌, ◌<◌, ◌^◌, ◌∷◌, ◌≡◌,
}
use trace.Proto.Sequences.{Outside, flush_out, ensure_process, wrote, process_packet, write_packet}
use trace.Proto.Packet.{TracePacket}
use trace.Proto.Batches.{write_events, write_batch, write_event, cleared}
use trace.Proto.{new, ProtoExporter}
use trace.Sink.{CodeInfo}
use Prim.Native.String.{String}
use trace.Proto.Action.{After, >>=-After, pure-After, modify-After, done}
use trace.Event.{Event, code_id, opens_slice, kind}
use trace.Prelude.{if◌then◌else◌}

module _ {Out : Type 0} (o : Outside Out)
    (short : (p : TracePacket) (bytes : List ℕ)
      → o.encode p ≡ some bytes
      → length bytes < 2 ^ 64) where
  -- A new exporter has room for any number of bytes of templates below `2 ^ 32`.
  pub new-IsSafe : (n : ℕ) (out : Out) (pid : ℕ) → n < 2 ^ 32 → IsSafe o short n (new out pid)
  unfolding new
  new-IsSafe n out pid h = record { ranges = tt; sequences = tt; room = omega (arith, h) }

  ensure_process-After :
      (n : ℕ) (x : ProtoExporter Out)
      → IsSafe o short n x
      → After (λ u y. IsSafe o short n y) (ensure_process o x)
  unfolding ensure_process
  ensure_process-After n x h = go x.process_emitted
    where
      go :
          (emitted : Bool)
          → After
              (λ u y. IsSafe o short n y)
              (if emitted
                then (done tt, x)
                else write_packet o (process_packet o x) (record x { process_emitted = true }))
      go true = pure-After tt x _ h
      go false =
          write_packet-After o short (IsSafe o short n) (process_packet o x)
            (record x { process_emitted = true }) (IsSafe-IgnoresOut o short n)
            (record { ranges = h.ranges; sequences = h.sequences; room = h.room })

  flush_out-After :
      (P : ProtoExporter Out → Type 0) (x : ProtoExporter Out)
      → ((y : ProtoExporter Out) (out : Out) → P y → P (record y { out = out }))
      → P x
      → After (λ u y. P y) (flush_out o x)
  unfolding flush_out wrote After
  flush_out-After P x ig h = go (o.flush x.out)
    where
      go : (r : Bool × Out) → After (λ u y. P y) (wrote o r x)
      go (true, out) = ig x out h
      go (false, out) = tt

  write_event-After :
      (n : ℕ) (codes : ℕ → Option CodeInfo) (threads : ℕ → Option String) (ev : Event)
      (x : ProtoExporter Out)
      → ev.ts_ns < 2 ^ 64
      → IsSafe o short (n + 64) x
      → After (λ u y. IsSafe o short n y) (write_event o codes threads ev x)
  unfolding write_event
  write_event-After n codes threads ev x small h =
      >>=-After _ _ x (λ u y. Ready o short (n + 64) ev.tid y) _
        (ensure_sequence-After o short (n + 64) ev.tid (threads ev.tid) x h)
        (λ u y k.
          >>=-After _ _ y (λ range z. InBounds o short range z × Ready o short n ev.tid z) _
            (template-After o short n ev.tid (code_id ev) (opens_slice (kind ev)) codes y k)
            (λ range z (inside, l).
              push_event-After o short n ev.tid ev.ts_ns range z small inside l))

  write_events-After :
      (n : ℕ) (codes : ℕ → Option CodeInfo) (threads : ℕ → Option String) (events : List Event)
      (x : ProtoExporter Out)
      → All (λ (ev : Event). ev.ts_ns < 2 ^ 64) events
      → IsSafe o short (n + 64 * length events) x
      → After (λ u y. IsSafe o short n y) (write_events o codes threads events x)
  unfolding write_events
  write_events-After n codes threads [] x small h =
      pure-After tt x _
        (record { ranges = h.ranges; sequences = h.sequences; room = omega (arith, h.room) })
  write_events-After n codes threads (ev ∷ events) x small h =
      let m : ℕ = n + 64 * length events in
      >>=-After _ _ x (λ u y. IsSafe o short m y) _
        (write_event-After m codes threads ev x (small.0)
          (record { ranges = h.ranges; sequences = h.sequences; room = omega (arith, h.room) }))
        (λ u y k. write_events-After n codes threads events y (small.1) k)

  -- Given templates of less than `2 ^ 32` bytes, 64 more for each event included, and times that fit
  -- a `u64`, `write_batch` does not panic: it ends with its result or with an error, and behind its
  -- result every template lies in the template bytes and there is room for `n` bytes more.
  pub write_batch-IsSafe :
      (n : ℕ) (codes : ℕ → Option CodeInfo) (threads : ℕ → Option String) (events : List Event)
      (x : ProtoExporter Out)
      → All (λ (ev : Event). ev.ts_ns < 2 ^ 64) events
      → IsSafe o short (n + 64 * length events) x
      → After (λ u y. IsSafe o short n y) (write_batch o codes threads events x)
  unfolding write_batch
  write_batch-IsSafe n codes threads events x small h =
      let m : ℕ = n + 64 * length events in
      >>=-After _ _ x (λ u y. IsSafe o short m y) _ (ensure_process-After m x h)
        (λ u y k.
          >>=-After _ _ y (λ u z. IsSafe o short m z) _
            (modify-After (cleared o) y
              (λ (u : Unit {0}) (z : ProtoExporter Out). IsSafe o short m z)
              (record { ranges = k.ranges; sequences = k.sequences; room = k.room }))
            (λ u z l.
              >>=-After _ _ z (λ u w. IsSafe o short n w) _
                (write_events-After n codes threads events z small l)
                (λ u w p.
                  >>=-After _ _ w (λ u v. IsSafe o short n v) _
                    (write_out-After o short (IsSafe o short n) w.buf w
                      (IsSafe-IgnoresOut o short n) p)
                    (λ u v q.
                      flush_out-After (IsSafe o short n) v (IsSafe-IgnoresOut o short n) q))))
