-- ===== src/Pipeline/Ends.antt =====
-- The two threads of crates/core/src/pipeline.rs take turns, on a queue that is closed.
use trace.Prelude.{ℕ}
use trace.Pipeline.Threads.{Serializer, at_loop, sized, drained_nothing, hands, returned, panicked}
use trace.Pipeline.Threads.{Writer, pops, saw_empty, finishes, ended, failed, Pipe, slots}
use trace.Pipeline.Rings.{Batches-cases, gather_empties}
use trace.Pipeline.Progress.{work, weight, works_from, writer_place, writer_place_over}
use trace.Prelude.{[], false, length, suc, true, zero, ◌+◌, ◌<◌, ◌≡◌, ◌≤◌, ◌⊎◌}
use trace.Pipeline.Runs.{Setup}
use trace.Pipeline.Threads.{is_finished, writer_step, write_from, serializer_step, pop_step}
use trace.Pipeline.Serializing.{Fits, serializer_step-Serializes, Fits-grows, Serializes}
use trace.Prelude.{Bool-cases, ap, arith, inl, inr, refl}
use trace.Pipeline.Threads.{drain_to, empty_step, finish_step}
use trace.Ring.{Ring, push}
use trace.Pipeline.{drain, EventBatch}
use trace.Prelude.{Bool, if◌then◌else◌, subst, sym, ◌∙◌}
use trace.Queue.{EventQueue}
use trace.Prelude.{List}
use trace.Pipeline.Written.{finished_hand}

-- `run_pipeline` has returned.
abbrev pub HasReturned : Writer → Type 0
HasReturned w = (w ≡ ended) ⊎ (w ≡ failed)

module _ (S : Setup) where
  open S use {
    R,
    Out,
    write,
    finish,
    inbound,
    before,
    R.{Chan, contents, capacity, pop_cons, pop_nil},
  }

  -- What the threads rely on.
  pub record IsSteady (p : Pipe Chan Out) : Type 0 where
    pub closed : p.inbound.closed ≡ true
    pub size : 0 < capacity p.full
    pub within : length (contents p.full) ≤ capacity p.full
    pub fits : Fits p.serializer (slots R p.full)

  -- One step of the serializer and one of the writer.
  unfoldable pub both_step : Pipe Chan Out → Pipe Chan Out
  both_step p = writer_step R write finish (serializer_step R p)

  unfoldable pub rounds : ℕ → Pipe Chan Out → Pipe Chan Out
  rounds zero p = p
  rounds (suc n) p = rounds n (both_step p)

  -- From `p` to `q`, a step of the writer.
  pub record Writes (p q : Pipe Chan Out) : Type 0 where
    pub serializer : q.serializer ≡ p.serializer
    pub inbound : q.inbound ≡ p.inbound
    pub size : capacity q.full ≡ capacity p.full
    pub room : length (contents q.full) ≤ length (contents p.full)
    pub progress :
        (weight R q < weight R p)
        ⊎ ((contents p.full ≡ [])
            × (is_finished p.serializer ≡ false)
            × (weight R q ≤ weight R p + 1))
        ⊎ HasReturned p.writer

  -- A drain gets the writer on where it takes a batch or the next place is nearer the end.
  drain_writes :
      (next : Writer) (p : Pipe Chan Out) (ring : Ring) (full : Chan)
      → let done = is_finished p.serializer in
        capacity full ≡ capacity p.full
        → length (contents full) ≤ length (contents p.full)
        → length (contents full) + writer_place next done
          < length (contents p.full) + writer_place p.writer done
        → Writes p (drain_to R write finish next ring (record p { full = full }))
  unfolding drain_to weight work writer_place
  drain_writes next p ring full size room near = record {
    serializer = refl;
    inbound = refl;
    size = size;
    room = room;
    progress = inl (elim (Bool-cases ((drain write p.inbound.clock ring p.out).0)) [
      | inl ok ↦ rw ok (omega (arith, near))
      | inr bad ↦ rw bad (omega (arith, near))
    ]);
  }

  last_place :
      (w : Writer) (out : Out) (p : Pipe Chan Out)
      → writer_place w (is_finished p.serializer) ≡ 0
      → p.writer ≡ finishes
      → Writes p (record p { writer = w; out = out })
  unfolding weight work writer_place
  last_place w out p z e = record {
    serializer = refl;
    inbound = refl;
    size = refl;
    room = omega arith;
    progress = inl (rw e (omega (arith, z)));
  }

  answered :
      (p : Pipe Chan Out)
      → p.writer ≡ finishes
      → let (ok, out) = finish p.inbound.dropped p.out in
        Writes p (record p { writer = if ok then ended else failed; out = out })
  unfolding writer_place
  answered p e =
      let (ok, out) = finish p.inbound.dropped p.out in
      elim ok as (λ b. Writes p (record p { writer = if b then ended else failed; out = out })) [
        | true ↦ last_place ended out p refl e
        | false ↦ last_place failed out p refl e
      ]

  finish_writes :
      (s : Serializer) (p : Pipe Chan Out)
      → p.writer ≡ finishes
      → Writes p (finish_step R write finish s p)
  unfolding finish_step weight work writer_place
  finish_writes panicked p e = last_place failed p.out p (omega arith) e
  finish_writes at_loop p e = answered p e
  finish_writes (sized room) p e = answered p e
  finish_writes drained_nothing p e = answered p e
  finish_writes (hands batches) p e = answered p e
  finish_writes returned p e = answered p e

  pub writes_from :
      (w : Writer) (p : Pipe Chan Out) → p.writer ≡ w → Writes p (write_from R write finish w p)
  unfolding write_from pop_step empty_step finish_step weight work writer_place
  writes_from pops p e = elim (Batches-cases (contents p.full)) [
    | inl none_there ↦
        rw (pop_step, pop_nil p.full none_there)
          (record {
            serializer = refl;
            inbound = refl;
            size = refl;
            room = omega arith;
            progress = elim (Bool-cases (is_finished p.serializer)) [
              | inl done ↦ inl (rw (done, e) (omega arith))
              | inr on ↦ inr (inl (none_there, on, rw (on, e) (omega arith)))
            ];
          })
    | inr (b, rest, there) ↦
        let (full, popped, behind, size) = pop_cons b rest p.full there in
        rw (pop_step, popped)
          (drain_writes pops p (push b p.ring) full size
            (omega (arith, ap length there, ap length behind))
            (rw e (omega (arith, ap length there, ap length behind))))
  ]
  writes_from saw_empty p e =
      let waiting = contents p.full in
      let (empty, size) =
        gather_empties R (suc (length waiting)) p.full p.ring waiting refl (omega arith) in
      elim (Bool-cases (is_finished p.serializer)) [
        | inl done ↦ rw done (
            drain_writes finishes p _ _ size (omega (arith, ap length empty))
              (rw (done, e) (omega (arith, ap length empty))))
        | inr on ↦ rw on (record {
          serializer = refl;
          inbound = refl;
          size = refl;
          room = omega arith;
          progress = inl (rw (on, e) (omega arith));
        })
      ]
  writes_from finishes p e = finish_writes p.serializer p e
  writes_from ended p e = record {
    serializer = refl;
    inbound = refl;
    size = refl;
    room = omega arith;
    progress = inr (inr (inl e));
  }
  writes_from failed p e = record {
    serializer = refl;
    inbound = refl;
    size = refl;
    room = omega arith;
    progress = inr (inr (inr e));
  }

  both_step-IsSteady : (p : Pipe Chan Out) → IsSteady p → IsSteady (both_step p)
  unfolding both_step writer_step
  both_step-IsSteady p h =
      let q = serializer_step R p in
      let s = serializer_step-Serializes R p h.fits h.within in
      let w = writes_from q.writer q refl in
      record {
        closed = ap (λ (r : EventQueue Chan). r.closed) w.inbound ∙ s.closed ∙ h.closed;
        size = omega (arith, w.size, s.size, h.size);
        within = omega (arith, w.size, w.room, s.within);
        fits =
            subst (λ t. Fits t (slots R (both_step p).full)) (sym w.serializer)
              (Fits-grows q.serializer (slots R q.full) (slots R (both_step p).full)
                (omega (arith, w.size, w.room)) s.fits);
      }

  -- The writer's place is no further from the end than it was.
  lower :
      (p q : Pipe Chan Out) {taken : List EventBatch}
      → Fits p.serializer (slots R p.full)
      → Serializes R p taken q
      → writer_place q.writer (is_finished q.serializer)
        ≤ writer_place p.writer (is_finished p.serializer)
  lower p q f s = elim (Bool-cases (is_finished p.serializer)) [
    | inl done ↦
        let back = (s.stays (finished_hand p.serializer (slots R p.full) done f)).0 in
        rw (s.writer, done, back) (omega arith)
    | inr on ↦ rw (s.writer, on) (writer_place_over p.writer (is_finished q.serializer))
  ]

  both_step_progress :
      (p : Pipe Chan Out)
      → IsSteady p
      → (weight R (both_step p) < weight R p) ⊎ HasReturned p.writer
  unfolding both_step writer_step serializer_step weight
  both_step_progress p h =
      let q = serializer_step R p in
      let s = serializer_step-Serializes R p h.fits h.within in
      let w = writes_from q.writer q refl in
      elim (works_from R p.serializer p refl h.fits h.closed) [
        | inl less ↦ elim w.progress [
          | inl on ↦ inl (omega (arith, on, less, lower p q h.fits s))
          | inr (inl (_, _, same)) ↦ inl (omega (arith, same, less, lower p q h.fits s))
          | inr (inr r) ↦ inr (subst HasReturned s.writer r)
        ]
        | inr (inl (stuck, full)) ↦ elim w.progress [
          | inl on ↦ inl (omega (arith, on, ap (weight R) stuck))
          | inr (inl (empty, _, _)) ↦ absurd (
              omega
                (arith, full, h.size, ap (λ r. length (contents r.full)) stuck, ap length empty))
          | inr (inr r) ↦ inr (subst HasReturned s.writer r)
        ]
        | inr (inr (stuck, back)) ↦ elim w.progress [
          | inl on ↦ inl (omega (arith, on, ap (weight R) stuck))
          | inr (inl (_, running, _)) ↦ absurd (let e = ap is_finished (s.stays back).0 in cc)
          | inr (inr r) ↦ inr (subst HasReturned s.writer r)
        ]
      ]

  pub halted : (q : Pipe Chan Out) → HasReturned q.writer → writer_step R write finish q ≡ q
  unfolding writer_step write_from
  halted q (inl e) = subst (λ w. write_from R write finish w q ≡ q) (sym e) refl
  halted q (inr e) = subst (λ w. write_from R write finish w q ≡ q) (sym e) refl

  returned_stays :
      (n : ℕ) (p : Pipe Chan Out)
      → IsSteady p
      → HasReturned p.writer
      → HasReturned (rounds n p).writer
  unfolding rounds both_step
  returned_stays zero p h r = r
  returned_stays (suc n) p h r =
      let s = serializer_step-Serializes R p h.fits h.within in
      let r' = subst HasReturned (sym s.writer) r in
      returned_stays n (both_step p) (both_step-IsSteady p h)
        (subst (λ t. HasReturned t.writer) (sym (halted (serializer_step R p) r')) r')

  -- Too few rounds left to do anything.
  no_place : (w : Writer) (done : Bool) → writer_place w done ≡ 0 → HasReturned w
  unfolding writer_place
  no_place pops done e = absurd (omega arith)
  no_place saw_empty true e = absurd (omega arith)
  no_place saw_empty false e = absurd (omega arith)
  no_place finishes done e = absurd (omega arith)
  no_place ended done e = inl refl
  no_place failed done e = inr refl

  -- enough
  -- On a closed queue on which nobody records, where the serializer has not panicked and what it has in
  -- hand fits the channel, which has room for one batch at least: if the two threads take turns, then
  -- after `weight` rounds, or more, `run_pipeline` has returned, well or with an error.
  pub rounds-HasReturned :
      (n : ℕ) (p : Pipe Chan Out) → IsSteady p → weight R p ≤ n → HasReturned (rounds n p).writer
  unfolding rounds weight
  rounds-HasReturned zero p h enough = no_place p.writer (is_finished p.serializer) (omega arith)
  rounds-HasReturned (suc n) p h enough = elim (both_step_progress p h) [
    | inl less ↦ rounds-HasReturned n (both_step p) (both_step-IsSteady p h) (omega (arith, less))
    | inr r ↦ returned_stays (suc n) p h r
  ]
