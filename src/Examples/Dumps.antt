-- ===== src/Examples/Dumps.antt =====
-- A recorder with one open window and batches that wait, and a sink whose exporters keep the events.
use trace.Examples.Recorder.{recorder}
use trace.Examples.Fifo.{fifo}
use trace.Examples.Queue.{batch, queue}
use trace.Recorder.{Recorder, push_all}
use trace.Recorder.Absorb.{absorb_all, absorb_all-Drains}
use trace.Queue.Drain.Waiting.{waiting}
use trace.Recorder.Control.{Sinks, Meanwhile, dump, settled}
use trace.Recorder.Dumps.{Collects, dump-written, events_of}
use trace.Queue.Drain.Order.{Drains}
use trace.Prelude.{
  List, Option, [], ap, arith, some, some-injective, sym, true, ℕ, ◌++◌, ◌+◌, ◌∷◌, ◌≡◌,
}
use trace.Event.{Event}
use trace.Ring
use trace.Queue.{EventQueue}
use mathlib.Core.List.{foldl}
use trace.Batch.{EventBatch}
use Prim.Native.String.{String}
use trace.Prelude.{refl}
use trace.Recorder.Replies.{Works}

abbrev pub Out : Type 0
Out = List Event

abbrev pub sinks : Sinks ℕ Out
sinks = record {
  create = λ reason files. (some (reason, []), files + 1);
  write_batch = λ events out. (true, out ++ events);
  finish = λ dropped out. (true, out);
}

abbrev written : Out → List Event
written out = out

sinks-Collects : Collects sinks written
sinks-Collects = record {
  at_first = λ reason path s t e h.
      let q : (reason, []) ≡ (path, e) = some-injective _ _ (ap (λ p. p.0) h) in
      sym (ap (λ p. p.1) q);
  each = λ chunk e f h. sym (ap (λ p. p.1) h);
  at_last = λ dropped e f h. sym (ap (λ p. p.1) h);
}

abbrev pub quiet : Meanwhile (ℕ × List EventBatch)
quiet = record { tails = []; records = λ step q. q; now = 900; later_tails = [] }

abbrev pub waiting_two : Recorder (ℕ × List EventBatch)
waiting_two = record recorder {
  inbound = record queue { consumers = (64, batch ∷ batch ∷ []) ∷ [] };
}

absorb_all-Drains_example :
    (taken : List EventBatch) × (q : Recorder (ℕ × List EventBatch)) × (absorb_all
        (fifo EventBatch)
        2
        waiting_two
      ≡ some q)
    × Drains (fifo EventBatch) waiting_two.inbound.consumers taken q.inbound.consumers
    × (q.ring ≡ push_all taken waiting_two.ring)
    × (q.windows ≡ waiting_two.windows)
    × (waiting (fifo EventBatch) q.inbound.consumers ≡ 0)
absorb_all-Drains_example = absorb_all-Drains (fifo EventBatch) waiting_two (omega arith)

dump-written_example :
    (history : Recorder (ℕ × List EventBatch)) × (result : Option (String × Out)) × (t : ℕ)
    × (q : Recorder (ℕ × List EventBatch)) × (settled (fifo EventBatch) sinks quiet waiting_two
        ≡ some history)
    × ((taken : List EventBatch) × (more : List EventBatch) × (between : EventQueue
          (ℕ × List EventBatch))
        × Drains (fifo EventBatch) waiting_two.inbound.consumers taken between.consumers
        × Drains (fifo EventBatch) between.consumers more history.inbound.consumers
        × (history.ring ≡ foldl (λ ring b. Ring.push b ring) waiting_two.ring (taken ++ more)))
    × (waiting (fifo EventBatch) history.inbound.consumers ≡ 0)
    × (dump (fifo EventBatch) sinks quiet 12 900 "exit" 0 waiting_two ≡ some (result, t, q))
    × ((path : String) (e : Out)
        → result ≡ some (path, e)
        → e ≡ events_of (fifo EventBatch) sinks written sinks-Collects quiet 12 900 history)
dump-written_example =
    dump-written (fifo EventBatch) sinks written sinks-Collects quiet 12 900 "exit" 0 waiting_two
      (omega arith) (λ q empty. omega (arith, empty))

pub sinks-Works : Works sinks
sinks-Works = record {
  creates = λ reason files. (reason, [], refl);
  writes = λ events out. refl;
  finishes = λ dropped out. refl;
}
