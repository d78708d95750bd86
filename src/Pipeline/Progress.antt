-- ===== src/Pipeline/Progress.antt =====
-- What a step of the serializer of crates/core/src/pipeline.rs has left to do, on a closed queue.
use trace.Prelude.{ℕ}
use trace.Queue.Drain.Order.{drain_batches-Drains}
use trace.Pipeline.Threads.{Serializer, at_loop, sized, drained_nothing, hands, returned, panicked}
use trace.Pipeline.Threads.{Writer, pops, saw_empty, finishes, ended, failed, Pipe, slots}
use trace.Prelude.{
  Bool, List, [], ap, arith, false, if◌then◌else◌, length, length-append, refl, some, true, ◌*◌,
  ◌+◌, ◌∷◌, ◌≡◌, ◌≤◌, ◌⊎◌,
}
use trace.Spsc.{Spsc}
use trace.Batch.{EventBatch}
use trace.Pipeline.Threads.{is_finished, step_from, is_abandoned, drain_step, hand_step}
use trace.Pipeline.Serializing.{Fits, in_hand}
use trace.Prelude.{Bool-cases, inl, inr, subst, sym, ◌==◌}
use trace.Queue.{EventQueue}
use trace.Queue.Drain.{drain_batches}
use trace.Queue.Drain.Waiting.{waiting-Drains, waiting}

-- The steps left to a thread, as far as its place tells.
unfoldable pub place : Serializer → ℕ
place at_loop = 6
place (sized room) = 4
place drained_nothing = 2
place (hands batches) = 8
place returned = 0
place panicked = 0

unfoldable pub writer_place : Writer → Bool → ℕ
writer_place pops done = 3
writer_place saw_empty done = if done then 2 else 4
writer_place finishes done = 1
writer_place ended done = 0
writer_place failed done = 0

pub writer_place_over : (w : Writer) (done : Bool) → writer_place w done ≤ writer_place w false
unfolding writer_place
writer_place_over pops done = omega arith
writer_place_over saw_empty true = omega arith
writer_place_over saw_empty false = omega arith
writer_place_over finishes done = omega arith
writer_place_over ended done = omega arith
writer_place_over failed done = omega arith

module _ (R : Spsc EventBatch) {Out : Type 0} where
  open R use {Chan, contents, capacity, push_room}

  unfoldable pub work : Pipe Chan Out → ℕ
  work p =
      9 * waiting R p.inbound.consumers
      + 3 * length (in_hand p.serializer)
      + length (contents p.full)
      + place p.serializer

  -- More rounds than the threads need.
  unfoldable pub weight : Pipe Chan Out → ℕ
  weight p = work p + writer_place p.writer (is_finished p.serializer)

  placed :
      (p : Pipe Chan Out) (s : Serializer)
      → p.serializer ≡ s
      → work p
        ≡ 9 * waiting R p.inbound.consumers
          + 3 * length (in_hand s)
          + length (contents p.full)
          + place s
  unfolding work
  placed p s e =
      ap
        (λ t.
          9 * waiting R p.inbound.consumers
          + 3 * length (in_hand t)
          + length (contents p.full)
          + place t)
        e

  drain_works :
      (p : Pipe Chan Out) (room : ℕ) (taken : List EventBatch) (q : EventQueue Chan)
      → drain_batches R room p.inbound ≡ some (taken, q)
      → waiting R p.inbound.consumers ≡ length taken + waiting R q.consumers
      → work (drain_step R room p) + 2
        ≤ 9 * waiting R p.inbound.consumers + 0 + length (contents p.full) + 4
  unfolding drain_step work place
  drain_works p room [] q d t = rw (drain_step, d) (omega (arith, t))
  drain_works p room (b ∷ taken) q d t = rw (drain_step, d) (omega (arith, t))

  hand_works :
      (p : Pipe Chan Out) (b : EventBatch) (batches : List EventBatch)
      → length (b ∷ batches) ≤ slots R p.full
      → work (hand_step R b batches p) + 2
        ≤ 9 * waiting R p.inbound.consumers
          + 3 * length (b ∷ batches)
          + length (contents p.full)
          + 8
  unfolding hand_step work place
  hand_works p b batches f =
      let (full, sent, behind, _) = push_room b p.full (omega arith) in
      rw (hand_step, sent)
        (omega (arith, ap length behind, length-append (contents p.full) (b ∷ [])))

  -- A step of the serializer makes progress, unless it waits for room or is over.
  pub works_from :
      (s : Serializer) (p : Pipe Chan Out)
      → p.serializer ≡ s
      → Fits s (slots R p.full)
      → p.inbound.closed ≡ true
      → (work (step_from R s p) + 2 ≤ work p)
        ⊎ ((step_from R s p ≡ p) × (slots R p.full ≡ 0))
        ⊎ ((step_from R s p ≡ p) × (p.serializer ≡ returned))
  unfolding step_from work place
  works_from at_loop p e f closed = elim (Bool-cases (is_abandoned p.writer)) [
    | inl gone ↦ inl (rw gone (omega (arith, placed p at_loop e)))
    | inr here ↦ elim (Bool-cases (slots R p.full == 0)) [
      | inl none_free ↦ inr (inl (rw (here, none_free) refl, ground arith))
      | inr some_free ↦ inl (rw (here, some_free) (omega (arith, placed p at_loop e)))
    ]
  ]
  works_from (sized room) p e (pos, fits) closed =
      let (taken, q, d, run, _, _, _) = drain_batches-Drains R room p.inbound pos in
      inl (
        omega (arith, placed p (sized room) e, drain_works p room taken q d (waiting-Drains R run)))
  works_from drained_nothing p e f closed = inl (
      subst (λ b. work (record p { serializer = if b then returned else at_loop }) + 2 ≤ work p)
        (sym closed) (omega (arith, placed p drained_nothing e)))
  works_from (hands []) p e f closed = inl (omega (arith, placed p (hands []) e))
  works_from (hands (b ∷ batches)) p e f closed =
      inl (omega (arith, placed p (hands (b ∷ batches)) e, hand_works p b batches f))
  works_from returned p e f closed = inr (inr (refl, e))
  works_from panicked p e f closed = elim f [ ]
