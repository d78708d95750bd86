-- ===== src/Recorder/Dumps.antt =====
-- What a dump of crates/core/src/recorder.rs writes.
use trace.Recorder.{Recorder, absorb, Spsc, EventBatch, EventQueue, push_all}
use trace.Recorder.Absorb.{no_limit, absorb_all-Drains}
use trace.Queue.Drain.Waiting.{waiting}
use trace.Recorder.Control.{
  Sinks, Meanwhile, chunks, chunks_from, write_chunk, write_chunks, finished, dump_events, dump,
  settled,
}
use trace.Prelude.{
  All, Bool, List, Option, [], ap, append-nil, append_assoc, arith, drop, false, if◌then◌else◌,
  length, length-drop, length-take, none, none-ne-some, refl, some, some-injective, suc, sym, true,
  zero, ℕ, ◌++◌, ◌+◌, ◌<◌, ◌∙◌, ◌∷◌, ◌≡◌, ◌≤◌,
}
use trace.Event.{Event}
use trace.Ring.{Ring}
use trace.Ring
use trace.Queue.Drain.Order.{Drains}
use mathlib.Core.List.{foldl}
use Prim.Native.String.{String}
use trace.Queue.Drain.Order.{drain_batches-Drains}
use trace.Snapshot.{assemble}
use trace.Prelude.{take}

-- The chunks one after the other.
abbrev pub joined : {A : Type 0} → List (List A) → List A
joined [] = []
joined (c ∷ cs) = c ++ joined cs

take-drop : {A : Type 0} (n : ℕ) (xs : List A) → take n xs ++ drop n xs ≡ xs
take-drop zero xs = refl
take-drop (suc n) [] = refl
take-drop (suc n) (x ∷ xs) = ap (◌∷◌ x) (take-drop n xs)

chunks_from_lem :
    {A : Type 0} (fuel size : ℕ) (xs : List A)
    → 0 < size
    → length xs ≤ fuel
    → (joined (chunks_from fuel size xs) ≡ xs)
      × All (λ c. (0 < length c) × (length c ≤ size)) (chunks_from fuel size xs)
unfolding chunks_from
chunks_from_lem zero size [] h k = (refl, tt)
chunks_from_lem zero size (x ∷ xs) h k = absurd (omega arith)
chunks_from_lem (suc fuel) size [] h k = (refl, tt)
chunks_from_lem (suc fuel) size (x ∷ xs) h k =
    let (same, fits) =
      chunks_from_lem fuel size (drop size (x ∷ xs)) h (omega (arith, length-drop size (x ∷ xs))) in
    let size_lem = length-take size (x ∷ xs) in
    (rw same (take-drop size (x ∷ xs)), ((omega (arith, size_lem), omega (arith, size_lem)), fits))

-- The chunks of a list, in their order, are the list, and each has one element at least and no more
-- than the size, which is not 0.
pub chunks-joined :
    {A : Type 0} (size : ℕ) (xs : List A)
    → 0 < size
    → (joined (chunks size xs) ≡ xs)
      × All (λ c. (0 < length c) × (length c ≤ size)) (chunks size xs)
unfolding chunks
chunks-joined size xs h = chunks_from_lem (length xs) size xs h (omega arith)

push_all_lem :
    (taken more : List EventBatch) (ring : Ring)
    → push_all more (push_all taken ring) ≡ foldl (λ ring b. Ring.push b ring) ring (taken ++ more)
unfolding push_all
push_all_lem [] [] ring = refl
push_all_lem [] (b ∷ more) ring = push_all_lem [] more (Ring.push b ring)
push_all_lem (b ∷ taken) more ring = push_all_lem taken more (Ring.push b ring)

-- What the exporters have been given: nothing at first, and each chunk that was written.
pub record Collects {S E : Type 0} (sinks : Sinks S E) (written : E → List Event) : Type 0 where
  pub at_first :
      (reason path : String) (s t : S) (e : E)
      → sinks.create reason s ≡ (some (path, e), t)
      → written e ≡ []
  pub each :
      (chunk : List Event) (e f : E)
      → sinks.write_batch chunk e ≡ (true, f)
      → written f ≡ written e ++ chunk
  pub at_last : (dropped : ℕ) (e f : E) → sinks.finish dropped e ≡ (true, f) → written f ≡ written e

module _ (R : Spsc EventBatch) {S E : Type 0} (sinks : Sinks S E) (written : E → List Event)
    (laws : Collects sinks written) where
  open R use {Chan}

  absorb-some :
      (limit : ℕ) (r : Recorder Chan)
      → 0 < limit
      → (drained : ℕ) × (q : Recorder Chan) × (absorb R limit r ≡ some (drained, q))
  unfolding absorb
  absorb-some limit r h =
      let (taken, queue, e, _, _, _, _) = drain_batches-Drains R limit r.inbound h in
      (
        length taken,
        record r { inbound = queue; ring = push_all taken r.ring },
        rw (absorb, e) refl,
      )

  -- The loop ends, and where every chunk was written, they all were.
  abbrev Written : Meanwhile Chan → ℕ → List (List Event) → E → Recorder Chan → Type 0
  Written m step cs e r =
      (ok : Bool) × (f : E) × (q : Recorder Chan) × (write_chunks R sinks m step cs e r
        ≡ some (ok, f, q))
      × (ok ≡ true → written f ≡ written e ++ joined cs)

  next_chunk :
      (m : Meanwhile Chan) (step : ℕ) (c : List Event) (cs : List (List Event)) (e : E)
      (r : Recorder Chan) (good : Bool)
      → (sinks.write_batch c e).0 ≡ good
      → ((after : E) (q : Recorder Chan) → Written m (step + 1) cs after q)
      → Written m step (c ∷ cs) e r
  unfolding write_chunks
  next_chunk m step c cs e r false h rest =
      (false, (sinks.write_batch c e).1, r, rw (write_chunks, h) refl, λ q. cc)
  next_chunk m step c cs e r true h rest =
      let after : E = (sinks.write_batch c e).1 in
      let (drained, q, found) =
        absorb-some no_limit (record r { inbound = m.records step r.inbound }) (omega arith) in
      let (ok, f, p, run, all) = rest after q in
      (
        ok,
        f,
        p,
        rw (write_chunks, h, found) run,
        λ k.
            all k
            ∙ rw (laws.each c e after (ap (λ b. (b, after)) h))
                (append_assoc (written e) c (joined cs)),
      )

  write_chunks_lem :
      (m : Meanwhile Chan) (step : ℕ) (cs : List (List Event)) (e : E) (r : Recorder Chan)
      → Written m step cs e r
  unfolding write_chunks
  write_chunks_lem m step [] e r = (true, e, r, refl, λ h. sym (append-nil (written e)))
  write_chunks_lem m step (c ∷ cs) e r =
      next_chunk m step c cs e r ((sinks.write_batch c e).0) refl (write_chunks_lem m (step + 1) cs)

  finished_lem :
      (path : String) (ok : Bool) (e : E) (r : Recorder Chan) (path' : String) (f : E)
      → (finished R sinks path (ok, e, r)).0 ≡ some (path', f)
      → (ok ≡ true) × (written f ≡ written e)
  unfolding finished
  finished_lem path false e r path' f h = absurd (none-ne-some (path', f) h)
  finished_lem path true e r path' f h = go (sinks.finish r.inbound.dropped e) refl h
    where
      go :
          (end : Bool × E)
          → sinks.finish r.inbound.dropped e ≡ end
          → if◌then◌else◌ {A = Option (String × E)} (end.0) (some (path, end.1)) none
            ≡ some (path', f)
          → (true ≡ true) × (written f ≡ written e)
      go (true, after) k h = (
        refl,
        laws.at_last r.inbound.dropped e f (k ∙ ap (λ p. (true, p.1)) (some-injective _ _ h)),
      )
      go (false, after) k h = absurd (none-ne-some (path', f) h)

  -- The events of a history.
  abbrev pub events_of : Meanwhile Chan → ℕ → ℕ → Recorder Chan → List Event
  events_of m start_ticks end_ticks r =
      assemble r.ring.batches m.tails r.inbound.clock r.ring.horizon_ticks start_ticks end_ticks

  dump_events_lem :
      (m : Meanwhile Chan) (start_ticks end_ticks : ℕ) (reason : String) (s : S) (r : Recorder Chan)
      → (result : Option (String × E)) × (t : S) × (q : Recorder Chan) × (dump_events R sinks m
            start_ticks end_ticks reason s r
          ≡ some (result, t, q))
        × ((path : String) (e : E)
            → result ≡ some (path, e)
            → written e ≡ events_of m start_ticks end_ticks r)
  unfolding dump_events
  dump_events_lem m start_ticks end_ticks reason s r = go ((sinks.create reason s).0) refl
    where
      t : S
      t = (sinks.create reason s).1

      go :
          (made : Option (String × E))
          → (sinks.create reason s).0 ≡ made
          → (result : Option (String × E)) × (t : S) × (q : Recorder Chan) × (dump_events R sinks m
                start_ticks end_ticks reason s r
              ≡ some (result, t, q))
            × ((path : String) (e : E)
                → result ≡ some (path, e)
                → written e ≡ events_of m start_ticks end_ticks r)
      go none h =
          (none, t, r, rw (dump_events, h) refl, λ path e k. absurd (none-ne-some (path, e) k))
      go (some (path, e)) h =
          let events : List Event = events_of m start_ticks end_ticks r in
          let (ok, f, q, run, all) = write_chunks_lem m 1 (chunks write_chunk events) e r in
          (
            (finished R sinks path (ok, f, q)).0,
            t,
            (finished R sinks path (ok, f, q)).1,
            rw (dump_events, h, run) refl,
            λ path' g k.
                let (good, last) = finished_lem path ok f q path' g k in
                last
                ∙ all good
                ∙ rw (laws.at_first reason path s t e (ap (λ o. (o, t)) h))
                    ((chunks-joined write_chunk events (omega arith)).0),
          )

  -- Given fewer waiting batches than `usize::MAX`, before the dump and after what the threads record
  -- between its two calls of `absorb_all`, a dump ends, with a path or with an error. First the batches
  -- that wait, and those recorded between the two calls, are pushed onto the ring, in the order of each
  -- queue of a thread, and none is left waiting. Where the dump ends with a path, its exporter has been given exactly
  -- the events that `assemble` makes of that ring and the tails, in their order.
  pub dump-written :
      (m : Meanwhile Chan) (start_ticks end_ticks : ℕ) (reason : String) (s : S) (r : Recorder Chan)
      → waiting R r.inbound.consumers < no_limit
      → ((q : EventQueue Chan)
          → waiting R q.consumers ≡ 0
          → waiting R (m.records 0 q).consumers < no_limit)
      → (history : Recorder Chan) × (result : Option (String × E)) × (t : S) × (q : Recorder Chan)
        × (settled R sinks m r ≡ some history)
        × ((taken : List EventBatch) × (more : List EventBatch) × (between : EventQueue Chan)
            × Drains R r.inbound.consumers taken between.consumers
            × Drains R (m.records 0 between).consumers more history.inbound.consumers
            × (history.ring ≡ foldl (λ ring b. Ring.push b ring) r.ring (taken ++ more)))
        × (waiting R history.inbound.consumers ≡ 0)
        × (dump R sinks m start_ticks end_ticks reason s r ≡ some (result, t, q))
        × ((path : String) (e : E)
            → result ≡ some (path, e)
            → written e ≡ events_of m start_ticks end_ticks history)
  unfolding dump settled
  dump-written m start_ticks end_ticks reason s r small calm =
      let (taken, first, e, run1, ring1, _, empty) = absorb_all-Drains R r small in
      let (more, history, e', run2, ring2, _, empty') =
        absorb_all-Drains R (record first { inbound = m.records 0 first.inbound })
          (calm first.inbound empty) in
      let (result, t, q, run, wrote) = dump_events_lem m start_ticks end_ticks reason s history in
      (
        history,
        result,
        t,
        q,
        rw (settled, e, e') refl,
        (
          taken,
          more,
          first.inbound,
          run1,
          run2,
          ring2 ∙ ap (push_all more) ring1 ∙ push_all_lem taken more r.ring,
        ),
        empty',
        rw (dump, settled, e, e', run) refl,
        wrote,
      )
