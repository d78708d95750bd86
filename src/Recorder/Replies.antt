-- ===== src/Recorder/Replies.antt =====
-- What `handle` of crates/core/src/recorder.rs answers, where files and exporters work.
use trace.Recorder.{Recorder, Spsc, EventBatch, EventQueue}
use trace.Recorder.Absorb.{no_limit, absorb_lem, absorb_all-Drains}
use trace.Queue.Drain.Waiting.{waiting}
use trace.Recorder.Control.{
  Sinks, Meanwhile, chunks, write_chunk, write_chunks, finished, dump_events, dump, settled,
}
use trace.Prelude.{List, [], refl, some, true, ℕ, ◌+◌, ◌<◌, ◌∷◌, ◌≡◌}
use Prim.Native.String.{String}
use trace.Event.{Event}
use trace.Snapshot.{assemble}

-- Nothing fails.
pub record Works {S E : Type 0} (sinks : Sinks S E) : Type 0 where
  pub creates :
      (reason : String) (s : S)
      → (path : String) × (e : E) × ((sinks.create reason s).0 ≡ some (path, e))
  pub writes : (chunk : List Event) (e : E) → (sinks.write_batch chunk e).0 ≡ true
  pub finishes : (dropped : ℕ) (e : E) → (sinks.finish dropped e).0 ≡ true

module _ (R : Spsc EventBatch) {S E : Type 0} (sinks : Sinks S E) (works : Works sinks) where
  open R use {Chan}

  -- Between two steps the other threads leave fewer batches than `usize::MAX`.
  abbrev pub IsCalm : Meanwhile Chan → Type 0
  IsCalm m =
      (step : ℕ) (q : EventQueue Chan)
      → waiting R q.consumers ≡ 0
      → waiting R (m.records step q).consumers < no_limit

  write_chunks-true :
      (m : Meanwhile Chan) (step : ℕ) (cs : List (List Event)) (e : E) (r : Recorder Chan)
      → IsCalm m
      → waiting R r.inbound.consumers ≡ 0
      → (f : E) × (q : Recorder Chan) × (write_chunks R sinks m step cs e r ≡ some (true, f, q))
        × (waiting R q.inbound.consumers ≡ 0)
  unfolding write_chunks
  write_chunks-true m step [] e r calm empty = (e, r, refl, empty)
  write_chunks-true m step (c ∷ cs) e r calm empty =
      let (_, q, found, _, _, _, nothing, _) =
        absorb_lem R (record r { inbound = m.records step r.inbound })
          (calm step r.inbound empty) in
      let (f, p, run, last) =
        write_chunks-true m (step + 1) cs ((sinks.write_batch c e).1) q calm nothing in
      (f, p, rw (write_chunks, works.writes c e, found) run, last)

  dump_events-some :
      (m : Meanwhile Chan) (start_ticks end_ticks : ℕ) (reason : String) (s : S) (r : Recorder Chan)
      → IsCalm m
      → waiting R r.inbound.consumers ≡ 0
      → (path : String) × (e : E) × (t : S) × (q : Recorder Chan) × (dump_events R sinks m
            start_ticks end_ticks reason s r
          ≡ some (some (path, e), t, q))
        × (waiting R q.inbound.consumers ≡ 0)
  unfolding dump_events finished
  dump_events-some m start_ticks end_ticks reason s r calm empty =
      let events : List Event =
        assemble r.ring.batches m.tails r.inbound.clock r.ring.horizon_ticks start_ticks
          end_ticks in
      let (path, e, made) = works.creates reason s in
      let (f, q, run, last) = write_chunks-true m 1 (chunks write_chunk events) e r calm empty in
      (
        path,
        (sinks.finish q.inbound.dropped f).1,
        (sinks.create reason s).1,
        q,
        rw (dump_events, made, run, finished, works.finishes q.inbound.dropped f) refl,
        last,
      )

  pub dump-some :
      (m : Meanwhile Chan) (start_ticks end_ticks : ℕ) (reason : String) (s : S) (r : Recorder Chan)
      → IsCalm m
      → waiting R r.inbound.consumers < no_limit
      → (path : String) × (e : E) × (t : S) × (q : Recorder Chan) × (dump R sinks m start_ticks
            end_ticks reason s r
          ≡ some (some (path, e), t, q))
        × (waiting R q.inbound.consumers ≡ 0)
  unfolding dump settled
  dump-some m start_ticks end_ticks reason s r calm small =
      let (_, first, e1, _, _, _, empty) = absorb_all-Drains R r small in
      let (_, history, e2, _, _, _, empty') =
        absorb_all-Drains R (record first { inbound = m.records 0 first.inbound })
          (calm 0 first.inbound empty) in
      let (path, e, t, q, run, last) =
        dump_events-some m start_ticks end_ticks reason s history calm empty' in
      (path, e, t, q, rw (dump, settled, e1, e2) run, last)
