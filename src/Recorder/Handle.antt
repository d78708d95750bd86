-- ===== src/Recorder/Handle.antt =====
-- The floor and the windows of crates/core/src/recorder.rs, from message to message.
use trace.Recorder.{Recorder, absorb, Spsc, EventBatch}
use trace.Recorder.Absorb.{absorb_all, no_limit}
use trace.Prelude.{
  Bool-cases, List, Option-cases, [], inl, inr, none-ne-some, refl, some, some-injective, subst, ℕ,
  ◌∷◌, ◌≡◌,
}
use trace.Recorder.{update_recycle_floor}
use trace.Prelude.{Bool, Option, false, none, true, ◌+◌}
use trace.Recorder.Control.{Sinks, dump, handle, dump_events, settled, refloor_recycling, finished}
use trace.Recorder.Control.{write_chunks, closed_window, Meanwhile, without, Control, opened}
use Prim.Native.String.{String}
use trace.Event.{Event}
use trace.Snapshot.{assemble}
use trace.Recorder.Control.{chunks, cancelled, dump_window, write_chunk, dump_all}
use trace.Recorder.Kept.{
  IsFloored, Keeps, Keeps-trans, Keeps-IsFloored, absorb-Keeps, absorb_all-Keeps,
  cancel_window-IsFloored, open_window-IsFloored,
}

module _ (R : Spsc EventBatch) {S E : Type 0} (sinks : Sinks S E) where
  open R use {Chan}
  open sinks use {create, write_batch, finish}

  write_chunks-Keeps :
      (m : Meanwhile Chan) (step : ℕ) (cs : List (List Event)) (e : E) (r : Recorder Chan)
      (end : Bool × E × Recorder Chan)
      → write_chunks R sinks m step cs e r ≡ some end
      → Keeps R r (end.2)
  unfolding write_chunks
  write_chunks-Keeps m step [] e r end h =
      subst (λ t. Keeps R r (t.2)) (some-injective _ _ h) (refl, refl)
  write_chunks-Keeps m step (c ∷ cs) e r end h = elim (Bool-cases ((write_batch c e).0)) [
    | inr failed ↦
        subst (λ t. Keeps R r (t.2)) (some-injective _ _ (rw (write_chunks, failed) at h))
          (refl, refl)
    | inl ok ↦
        let grown : Recorder Chan = record r { inbound = m.records step r.inbound } in
        elim (Option-cases (absorb R no_limit grown)) [
          | inl nothing ↦ absurd (none-ne-some end (rw (write_chunks, ok, nothing) at h))
          | inr ((drained, q), found) ↦
              Keeps-trans R r q (end.2) (absorb-Keeps R no_limit grown drained q found) (
                write_chunks-Keeps m (step + 1) cs ((write_batch c e).1) q end
                  (rw (write_chunks, ok, found) at h))
        ]
  ]

  finished-Keeps :
      (path : String) (end : Bool × E × Recorder Chan)
      → Keeps R (end.2) ((finished R sinks path end).1)
  unfolding finished
  finished-Keeps path (true, e, r) = (refl, refl)
  finished-Keeps path (false, e, r) = (refl, refl)

  settled-Keeps :
      (m : Meanwhile Chan) (r q : Recorder Chan) → settled R sinks m r ≡ some q → Keeps R r q
  unfolding settled
  settled-Keeps m r q h = elim (Option-cases (absorb_all R 2 r)) [
    | inl nothing ↦ absurd (none-ne-some q (rw (settled, nothing) at h))
    | inr (p, found) ↦ Keeps-trans R r p q (absorb_all-Keeps R 2 r p found) (
        absorb_all-Keeps R 2 (record p { inbound = m.records 0 p.inbound }) q
          (rw (settled, found) at h))
  ]

  dump_events-Keeps :
      (m : Meanwhile Chan) (start_ticks end_ticks : ℕ) (reason : String) (s : S) (r : Recorder Chan)
      (end : Option (String × E) × S × Recorder Chan)
      → dump_events R sinks m start_ticks end_ticks reason s r ≡ some end
      → Keeps R r (end.2)
  unfolding dump_events
  dump_events-Keeps m start_ticks end_ticks reason s r end h = go (create reason s) h
    where
      events : List Event
      events =
          assemble r.ring.batches m.tails r.inbound.clock r.ring.horizon_ticks start_ticks end_ticks

      go :
          (made : Option (String × E) × S)
          → elim made.0 [
            | none ↦ some (none, made.1, r)
            | some (path, e) ↦ elim (write_chunks R sinks m 1 (chunks write_chunk events) e r) [
              | none ↦ none
              | some end ↦ let (result, q) = finished R sinks path end in some (result, made.1, q)
            ]
          ]
            ≡ some end
          → Keeps R r (end.2)
      go (none, t) h = subst (λ t. Keeps R r (t.2)) (some-injective _ _ h) (refl, refl)
      go (some (path, e), t) h =
          elim (Option-cases (write_chunks R sinks m 1 (chunks write_chunk events) e r)) [
            | inl nothing ↦ absurd (none-ne-some end (rw nothing at h))
            | inr (last, found) ↦
                subst (λ t. Keeps R r (t.2)) (some-injective _ _ (rw found at h))
                  (Keeps-trans R r (last.2) ((finished R sinks path last).1)
                    (write_chunks-Keeps m 1 _ e r last found) (finished-Keeps path last))
          ]

  pub dump-Keeps :
      (m : Meanwhile Chan) (start_ticks end_ticks : ℕ) (reason : String) (s : S) (r : Recorder Chan)
      (end : Option (String × E) × S × Recorder Chan)
      → dump R sinks m start_ticks end_ticks reason s r ≡ some end
      → Keeps R r (end.2)
  unfolding dump
  dump-Keeps m start_ticks end_ticks reason s r end h = elim (Option-cases (settled R sinks m r)) [
    | inl nothing ↦ absurd (none-ne-some end (rw (dump, nothing) at h))
    | inr (q, found) ↦
        Keeps-trans R r q (end.2) (settled-Keeps m r q found)
          (dump_events-Keeps m start_ticks end_ticks reason s q end (rw (dump, found) at h))
  ]

  pub refloor_recycling-Keeps :
      (m : Meanwhile Chan) (r q : Recorder Chan)
      → refloor_recycling R sinks m r ≡ some q
      → Keeps R r q
  unfolding refloor_recycling update_recycle_floor
  refloor_recycling-Keeps m r q h = elim (Option-cases (absorb_all R 2 r)) [
    | inl nothing ↦ absurd (none-ne-some q (rw (refloor_recycling, nothing) at h))
    | inr (p, found) ↦
        subst (Keeps R r) (some-injective _ _ (rw (refloor_recycling, found) at h))
          (absorb_all-Keeps R 2 r p found)
  ]

  closed_window-IsFloored :
      (m : Meanwhile Chan) (id : Option ℕ) (replies : Bool)
      (end : Option (String × E) × S × Recorder Chan)
      (answer : Bool × Option String × S × Recorder Chan)
      → IsFloored R (end.2)
      → closed_window R sinks m id replies end ≡ some answer
      → IsFloored R (answer.3)
  unfolding closed_window
  closed_window-IsFloored m id replies (none, s, r) answer h e =
      subst (λ a. IsFloored R (a.3)) (some-injective _ _ e) h
  closed_window-IsFloored m id replies (some (path, x), s, r) answer h e =
      elim (Option-cases (refloor_recycling R sinks m (without R sinks id r))) [
        | inl nothing ↦ absurd (none-ne-some answer (rw (closed_window, nothing) at e))
        | inr (q, found) ↦
            subst (λ a. IsFloored R (a.3)) (some-injective _ _ (rw (closed_window, found) at e))
              (Keeps-IsFloored R (without R sinks id r) q
                (refloor_recycling-Keeps m (without R sinks id r) q found) (without-IsFloored id))
      ]
    where
      without-IsFloored : (id : Option ℕ) → IsFloored R (without R sinks id r)
      without-IsFloored none = h
      without-IsFloored (some id) = cancel_window-IsFloored R id r

  -- Behind every message that is handled, with a dump that fails included, the ring's floor is the
  -- least start of the open windows if it was before.
  pub handle-IsFloored :
      (m : Meanwhile Chan) (msg : Control) (s : S) (r : Recorder Chan)
      (answer : Bool × Option String × S × Recorder Chan)
      → IsFloored R r
      → handle R sinks m msg s r ≡ some answer
      → IsFloored R (answer.3)
  unfolding handle
  handle-IsFloored m (opened id start_ticks) s r answer h e =
      subst (λ a. IsFloored R (a.3)) (some-injective _ _ e)
        (open_window-IsFloored R id start_ticks r)
  handle-IsFloored m (cancelled id) s r answer h e =
      subst (λ a. IsFloored R (a.3)) (some-injective _ _ e) (cancel_window-IsFloored R id r)
  handle-IsFloored m (dump_window id start_ticks end_ticks reason replies) s r answer h e =
      elim (Option-cases (dump R sinks m start_ticks end_ticks reason s r)) [
        | inl nothing ↦ absurd (none-ne-some answer (rw (handle, nothing) at e))
        | inr (end, found) ↦
            closed_window-IsFloored m (some id) replies end answer
              (Keeps-IsFloored R r (end.2) (dump-Keeps m start_ticks end_ticks reason s r end found)
                h)
              (rw (handle, found) at e)
      ]
  handle-IsFloored m (dump_all end_ticks reason replies) s r answer h e =
      elim (Option-cases (dump R sinks m 0 end_ticks reason s r)) [
        | inl nothing ↦ absurd (none-ne-some answer (rw (handle, nothing) at e))
        | inr (end, found) ↦
            closed_window-IsFloored m none replies end answer
              (Keeps-IsFloored R r (end.2) (dump-Keeps m 0 end_ticks reason s r end found) h)
              (rw (handle, found) at e)
      ]
