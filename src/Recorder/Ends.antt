-- ===== src/Recorder/Ends.antt =====
-- `handle` of crates/core/src/recorder.rs ends, whatever files and exporters do.
use Prim.Native.String.{String}
use trace.Prelude.{ℕ}
use trace.Event.{Event}
use trace.Recorder.{
  Recorder, Spsc, EventBatch, open_window, cancel_window, refloor, update_recycle_floor,
}
use trace.Queue.{EventQueue}
use trace.Recorder.Absorb.{no_limit, absorb_lem, absorb_all-Drains}
use trace.Queue.Drain.Waiting.{waiting}
use trace.Snapshot.{assemble}
use trace.Recorder.Control.{
  Control, Meanwhile, Sinks, opened, cancelled, dump_window, dump_all, chunks, write_chunk,
  write_chunks, finished, settled, dump_events, dump, refloor_recycling, without, closed_window,
  handle,
}
use trace.Prelude.{
  Bool, Bool-cases, List, Option, Option-cases, [], ap, arith, false, if◌then◌else◌, inl, inr, none,
  refl, some, true, ◌+◌, ◌<◌, ◌∙◌, ◌∷◌, ◌≡◌, ◌≤◌,
}

module _ (R : Spsc EventBatch) {S E : Type 0} (sinks : Sinks S E) where
  open R use {Chan}

  -- What the other threads record at one step, where nothing waits before, is less than `usize::MAX`
  -- batches.
  abbrev pub Spares : Meanwhile Chan → Type 0
  Spares m =
      (step : ℕ) (q : EventQueue Chan)
      → waiting R q.consumers ≡ 0
      → waiting R (m.records step q).consumers < no_limit

  write_chunks-some :
      (m : Meanwhile Chan) (step : ℕ) (cs : List (List Event)) (e : E) (r : Recorder Chan)
      → Spares m
      → waiting R r.inbound.consumers ≡ 0
      → (ok : Bool) × (f : E) × (q : Recorder Chan) × (write_chunks R sinks m step cs e r
          ≡ some (ok, f, q))
        × (waiting R q.inbound.consumers ≡ 0)
  unfolding write_chunks
  write_chunks-some m step [] e r spares empty = (true, e, r, refl, empty)
  write_chunks-some m step (c ∷ cs) e r spares empty =
      let (_, q, found, _, _, _, nothing, _) =
        absorb_lem R (record r { inbound = m.records step r.inbound })
          (spares step r.inbound empty) in
      let (ok, f, p, run, last) =
        write_chunks-some m (step + 1) cs ((sinks.write_batch c e).1) q spares nothing in
      elim (Bool-cases ((sinks.write_batch c e).0)) [
        | inl good ↦ (ok, f, p, rw (write_chunks, good, found) run, last)
        | inr bad ↦ (false, (sinks.write_batch c e).1, r, rw (write_chunks, bad) refl, empty)
      ]

  finished-same :
      (path : String) (end : Bool × E × Recorder Chan) → (finished R sinks path end).1 ≡ end.2
  unfolding finished
  finished-same path (true, e, r) = refl
  finished-same path (false, e, r) = refl

  dump_events-some :
      (m : Meanwhile Chan) (start_ticks end_ticks : ℕ) (reason : String) (s : S) (r : Recorder Chan)
      → Spares m
      → waiting R r.inbound.consumers ≡ 0
      → (result : Option (String × E)) × (t : S) × (q : Recorder Chan) × (dump_events R sinks m
            start_ticks end_ticks reason s r
          ≡ some (result, t, q))
        × (waiting R q.inbound.consumers ≡ 0)
  unfolding dump_events
  dump_events-some m start_ticks end_ticks reason s r spares empty =
      let events : List Event =
        assemble r.ring.batches m.tails r.inbound.clock r.ring.horizon_ticks start_ticks
          end_ticks in
      let t : S = (sinks.create reason s).1 in
      elim (Option-cases ((sinks.create reason s).0)) [
        | inl failed ↦ (none, t, r, rw (dump_events, failed) refl, empty)
        | inr ((path, e), made) ↦
            let (ok, f, q, run, last) =
              write_chunks-some m 1 (chunks write_chunk events) e r spares empty in
            (
              (finished R sinks path (ok, f, q)).0,
              t,
              (finished R sinks path (ok, f, q)).1,
              rw (dump_events, made, run) refl,
              ap (λ (p : Recorder Chan). waiting R p.inbound.consumers)
                    (finished-same path (ok, f, q))
                  ∙ last,
            )
      ]

  dump-some :
      (m : Meanwhile Chan) (start_ticks end_ticks : ℕ) (reason : String) (s : S) (r : Recorder Chan)
      → Spares m
      → waiting R r.inbound.consumers < no_limit
      → (result : Option (String × E)) × (t : S) × (q : Recorder Chan) × (dump R sinks m start_ticks
            end_ticks reason s r
          ≡ some (result, t, q))
        × (waiting R q.inbound.consumers ≡ 0)
  unfolding dump settled
  dump-some m start_ticks end_ticks reason s r spares small =
      let (_, first, e1, _, _, _, empty) = absorb_all-Drains R r small in
      let (_, history, e2, _, _, _, empty') =
        absorb_all-Drains R (record first { inbound = m.records 0 first.inbound })
          (spares 0 first.inbound empty) in
      let (result, t, q, run, last) =
        dump_events-some m start_ticks end_ticks reason s history spares empty' in
      (result, t, q, rw (dump, settled, e1, e2) run, last)

  pub without_inbound :
      (id : Option ℕ) (r : Recorder Chan) → (without R sinks id r).inbound ≡ r.inbound
  unfolding cancel_window refloor
  without_inbound none r = refl
  without_inbound (some id) r = refl

  -- The recycle floor, of a recorder on which nothing much waits.
  pub refloor_recycling-some :
      (m : Meanwhile Chan) (r : Recorder Chan)
      → waiting R r.inbound.consumers < no_limit
      → (q : Recorder Chan) × (refloor_recycling R sinks m r ≡ some q)
        × (waiting R q.inbound.consumers ≡ 0)
  unfolding refloor_recycling update_recycle_floor
  refloor_recycling-some m r small =
      let (_, p, absorbed, _, _, _, nothing) = absorb_all-Drains R r small in
      (update_recycle_floor m.now m.later_tails p, rw (refloor_recycling, absorbed) refl, nothing)

  closed_window-some :
      (m : Meanwhile Chan) (id : Option ℕ) (replies : Bool) (result : Option (String × E)) (s : S)
      (r : Recorder Chan)
      → waiting R r.inbound.consumers ≡ 0
      → (ok : Bool) × (answer : Option String) × (q : Recorder Chan) × (closed_window R sinks m id
            replies
            (result, s, r)
          ≡ some (ok, answer, s, q))
        × (waiting R q.inbound.consumers ≡ 0)
  unfolding closed_window
  closed_window-some m id replies none s r empty = (false, none, r, refl, empty)
  closed_window-some m id replies (some (path, e)) s r empty =
      let same = ap (λ (q : EventQueue Chan). waiting R q.consumers) (without_inbound id r) in
      let (p, floored, nothing) =
        refloor_recycling-some m (without R sinks id r) (omega (arith, same, empty)) in
      (true, (if replies then some path else none), p, rw (closed_window, floored) refl, nothing)

  pub handle-some :
      (m : Meanwhile Chan) (msg : Control) (s : S) (r : Recorder Chan)
      → Spares m
      → waiting R r.inbound.consumers < no_limit
      → (ok : Bool) × (answer : Option String) × (t : S) × (q : Recorder Chan) × (handle R sinks m
            msg s r
          ≡ some (ok, answer, t, q))
        × (waiting R q.inbound.consumers ≤ waiting R r.inbound.consumers)
  unfolding handle open_window cancel_window refloor
  handle-some m (opened id start_ticks) s r spares small =
      (true, none, s, open_window id start_ticks r, refl, omega arith)
  handle-some m (cancelled id) s r spares small =
      (true, none, s, cancel_window id r, refl, omega arith)
  handle-some m (dump_window id start_ticks end_ticks reason replies) s r spares small =
      let (result, t, q, run, empty) = dump-some m start_ticks end_ticks reason s r spares small in
      let (ok, answer, p, done, nothing) =
        closed_window-some m (some id) replies result t q empty in
      (ok, answer, t, p, rw (handle, run) done, omega (arith, nothing))
  handle-some m (dump_all end_ticks reason replies) s r spares small =
      let (result, t, q, run, empty) = dump-some m 0 end_ticks reason s r spares small in
      let (ok, answer, p, done, nothing) = closed_window-some m none replies result t q empty in
      (ok, answer, t, p, rw (handle, run) done, omega (arith, nothing))
