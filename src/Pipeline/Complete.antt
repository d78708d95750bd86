-- ===== src/Pipeline/Complete.antt =====
-- What is in the rings when the queue is closed, and the threads of crates/core/src/pipeline.rs.
use trace.Prelude.{ℕ}
use trace.Queue.Drain.Order.{Drains, over}
use trace.Pipeline.Threads.{Serializer, at_loop, sized, drained_nothing, hands, returned, panicked}
use trace.Pipeline.Threads.{Writer, pops, saw_empty, finishes, ended, failed, Pipe, start}
use trace.Pipeline.Runs.{Setup, Reaches, begins, serializes, writes, Outcome, Finished}
use trace.Pipeline.Serializing.{drawn, serializer_step-Serializes}
use trace.Prelude.{List, ap, inl, inr, refl, suc, true, zero, ◌++◌, ◌∙◌, ◌≡◌}
use trace.Pipeline.Ends.{both_step, rounds, halted, rounds-HasReturned, writes_from, IsSteady}
use trace.Pipeline.Emptying.{Emptied, AllLight, Drains-AllLight, steps_from}
use trace.Event.{Event}
use trace.Batch.{EventBatch, decode_into}
use trace.Pipeline.Threads.{serializer_step, writer_step}
use trace.Queue.{EventQueue}
use trace.Queue.Drain.Waiting.{waiting, Drains-append}
use trace.Prelude.{Bool, [], subst, sym, ◌∷◌, ◌≤◌}
use trace.Pipeline.Progress.{weight}
use trace.Pipeline.{write_each}
use trace.Pipeline.Written.{reaches-IsSound}
use trace.Prelude.{arith}
use trace.Pipeline.Order.{begins-IsSound}

module _ (S : Setup) where
  open S use {R, Out, write, finish, inbound, before, R.{Chan, contents}}

  -- Nothing that the exporter is given fails.
  pub record Works : Type 0 where
    pub writes : (events : List Event) (out : Out) → (write events out).0 ≡ true
    pub finishes : (dropped : ℕ) (out : Out) → (finish dropped out).0 ≡ true

  -- A point of a run in which nobody records, and where the queue is closed from the start.
  record Told (taken : List EventBatch) (p : Pipe Chan Out) : Type 0 where
    pub reaches : Reaches S taken p
    pub run : Drains R inbound.consumers taken p.inbound.consumers
    pub emptied : Emptied R p.serializer p
    pub closed : p.inbound.closed ≡ true

  outcome_ended :
      (w : Writer) (taken : List EventBatch) (p : Pipe Chan Out)
      → Outcome S w taken p
      → w ≡ ended
      → p.serializer ≡ returned
  outcome_ended ended taken p o e = o.over
  outcome_ended pops taken p o e = cc
  outcome_ended saw_empty taken p o e = cc
  outcome_ended finishes taken p o e = cc
  outcome_ended failed taken p o e = cc

  Emptied-writes :
      (s : Serializer) (p q : Pipe Chan Out)
      → q.inbound ≡ p.inbound
      → (p.writer ≡ failed → q.writer ≡ failed)
      → Emptied R s p
      → Emptied R s q
  Emptied-writes at_loop p q same stays h = tt
  Emptied-writes (sized room) p q same stays h = tt
  Emptied-writes (hands batches) p q same stays h = tt
  Emptied-writes panicked p q same stays h = tt
  Emptied-writes drained_nothing p q same stays h =
      ap (λ (i : EventQueue Chan). waiting R i.consumers) same ∙ h
  Emptied-writes returned p q same stays (inl h) = inl (stays h)
  Emptied-writes returned p q same stays (inr h) =
      inr (ap (λ (i : EventQueue Chan). waiting R i.consumers) same ∙ h)

  stays_failed :
      (q : Pipe Chan Out) → q.writer ≡ failed → (writer_step R write finish q).writer ≡ failed
  stays_failed q e = ap (λ (p : Pipe Chan Out). p.writer) (halted S q (inr e)) ∙ e

  both_step-Told :
      (taken : List EventBatch) (p : Pipe Chan Out)
      → AllLight R inbound.consumers
      → Told taken p
      → Told (taken ++ drawn R p) (both_step S p)
  unfolding both_step serializer_step drawn writer_step
  both_step-Told taken p light t =
      let (here, _) = Drains-AllLight R t.run light in
      let sound = reaches-IsSound S taken p t.reaches here in
      let q = serializer_step R p in
      let (more, emptied) =
        steps_from R p.serializer p refl sound.fits t.closed
          (outcome_ended p.writer taken p sound.outcome) t.emptied in
      let s = serializer_step-Serializes R p sound.fits sound.within in
      let w = writes_from S q.writer q refl in
      record {
        reaches = writes (serializes t.reaches);
        run = rw w.inbound (Drains-append R t.run more);
        emptied =
            subst (λ s. Emptied R s (both_step S p)) (sym w.serializer)
              (Emptied-writes q.serializer q (both_step S p) w.inbound (stays_failed q) emptied);
        closed = ap (λ (i : EventQueue Chan). i.closed) w.inbound ∙ s.closed ∙ t.closed;
      }

  rounds-Told :
      (n : ℕ) (taken : List EventBatch) (p : Pipe Chan Out)
      → AllLight R inbound.consumers
      → Told taken p
      → (all : List EventBatch) × Told all (rounds S n p)
  unfolding rounds
  rounds-Told zero taken p light t = (taken, t)
  rounds-Told (suc n) taken p light t =
      rounds-Told n (taken ++ drawn R p) (both_step S p) light (both_step-Told taken p light t)

  write_each-true :
      Works → (bs : List EventBatch) (out : Out) → (write_each write inbound.clock bs out).0 ≡ true
  unfolding write_each
  write_each-true works [] out = refl
  write_each-true works (b ∷ bs) out =
      rw (write_each, works.writes (decode_into inbound.clock b) out)
        (write_each-true works bs ((write (decode_into inbound.clock b) out).1))

  never_fails : (taken : List EventBatch) (p : Pipe Chan Out) → Works → ¬ Outcome S failed taken p
  never_fails taken p works (inl r) =
      let ok = write_each-true works r.offered before in let bad = r.refused in cc
  never_fails taken p works (inr f) =
      let ok = works.finishes f.dropped f.last in
      let e = ap (λ (r : Bool × Out). r.0) f.answer in cc

  begun-Told : inbound.closed ≡ true → Told [] (start R inbound before)
  unfolding start
  begun-Told closed = record { reaches = begins; run = over; emptied = tt; closed = closed }

  begun-IsSteady : inbound.closed ≡ true → IsSteady S (start R inbound before)
  unfolding start
  begun-IsSteady closed =
      let sound = begins-IsSound S in
      record { closed = closed; size = omega (arith, sound.size); within = sound.within; fits = tt }

  -- If nothing that the exporter is given fails, the queue is closed, nobody records, and the batches in
  -- its rings are of less than `2 ^ 48` bytes each: when the two threads have taken turns for `weight`
  -- rounds, or more, `run_pipeline` has returned well, and every batch that was in the rings, in the
  -- order of each, was decoded and written, and then `finish` was called.
  pub rounds-written :
      (n : ℕ)
      → Works
      → inbound.closed ≡ true
      → AllLight R inbound.consumers
      → weight R (start R inbound before) ≤ n
      → let p = rounds S n (start R inbound before) in
        (taken : List EventBatch) × (p.writer ≡ ended)
        × Drains R inbound.consumers taken p.inbound.consumers
        × (waiting R p.inbound.consumers ≡ 0)
        × Finished S true taken p
  rounds-written n works closed light enough =
      let begun : Pipe Chan Out = start R inbound before in
      let p = rounds S n begun in
      let (taken, t) = rounds-Told n [] begun light (begun-Told closed) in
      let (here, _) = Drains-AllLight R t.run light in
      let sound = reaches-IsSound S taken p t.reaches here in
      elim (rounds-HasReturned S n begun (begun-IsSteady closed) enough) [
        | inr e ↦
            absurd (never_fails taken p works (subst (λ w. Outcome S w taken p) e sound.outcome))
        | inl e ↦
            let o : Finished S true taken p = subst (λ w. Outcome S w taken p) e sound.outcome in
            let emptied : Emptied R returned p = subst (λ s. Emptied R s p) o.over t.emptied in
            elim emptied [
              | inl bad ↦ absurd (let k = sym e ∙ bad in cc)
              | inr nothing ↦ (taken, e, t.run, nothing, o)
            ]
      ]
