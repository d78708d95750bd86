-- ===== src/Pipeline/Written.antt =====
-- What the writer has given to the exporter, at every point of every run.
use trace.Prelude.{ℕ}
use trace.Pipeline.Threads.{Serializer, at_loop, sized, drained_nothing, hands, returned, panicked}
use trace.Pipeline.Threads.{Writer, pops, saw_empty, finishes, ended, failed, Pipe, slots}
use trace.Pipeline.Rings.{Batches-cases, IsLight, push-IsOpen, gather-IsOpen, gather_empties}
use trace.Pipeline.Runs.{Reaches, begins, serializes, writes, records, Setup, Looping, IsSound}
use trace.Prelude.{
  All, All-split, Bool-cases, List, [], ap, append-nil, arith, inl, inr, length, refl, subst, suc,
  sum_of, sym, true, ◌++◌, ◌∙◌, ◌∷◌, ◌≡◌,
}
use trace.Pipeline.Threads.{is_finished, empty_step, pop_step, writer_step, finish_step, write_from}
use trace.Pipeline.Serializing.{Fits, under_way, in_hand, drawn}
use trace.Batch.{EventBatch, bytes}
use trace.Pipeline.Runs.{written, Finished, Outcome}
use trace.Pipeline.Order.{drains-IsSound, begins-IsSound, serializes-IsSound}
use trace.Ring.{push, Ring}
use trace.Prelude.{Bool, false}
use trace.Queue.{EventQueue}

pub finished_hand : (s : Serializer) (free : ℕ) → is_finished s ≡ true → Fits s free → s ≡ returned
finished_hand returned free e f = refl
finished_hand panicked free e f = elim f [ ]
finished_hand at_loop free e f = cc
finished_hand (sized room) free e f = cc
finished_hand drained_nothing free e f = cc
finished_hand (hands bs) free e f = cc

module _ (S : Setup) where
  open S use {
    R,
    Out,
    write,
    finish,
    inbound,
    before,
    R.{Chan, contents, capacity, pop_cons, pop_nil},
  }

  -- Nothing but the writer's place and the queue changes.
  Looping-relabel :
      (w : Writer) (q : EventQueue Chan) (taken : List EventBatch) (p : Pipe Chan Out)
      → Looping S taken p
      → Looping S taken (record p { writer = w; inbound = q })
  Looping-relabel w q taken p o = record {
    done = o.done;
    all = o.all;
    so_far = o.so_far;
    open_ring = o.open_ring;
    empty_ring = o.empty_ring;
  }

  -- With nothing under way, everything is written.
  all_done :
      (taken : List EventBatch) (q : Pipe Chan Out)
      → Looping S taken q
      → contents q.full ≡ []
      → q.serializer ≡ returned
      → written S taken ≡ (true, q.out, [])
  all_done taken q o empty back =
      let nothing : under_way R q ≡ [] = λ i. empty i ++ in_hand (back i) in
      let same : o.done ≡ taken =
        sym (append-nil o.done) ∙ ap (◌++◌ o.done) (sym nothing) ∙ o.all in
      subst (λ bs. written S bs ≡ (true, q.out, [])) same o.so_far

  Finished-inbound :
      (ok : Bool) (taken : List EventBatch) (p : Pipe Chan Out) (q : EventQueue Chan)
      → Finished S ok taken p
      → Finished S ok taken (record p { inbound = q })
  Finished-inbound ok taken p q o = record {
    over = o.over;
    last = o.last;
    dropped = o.dropped;
    all_written = o.all_written;
    answer = o.answer;
  }

  -- The queue may change under the writer.
  Outcome-inbound :
      (w : Writer) (taken : List EventBatch) (p : Pipe Chan Out) (q : EventQueue Chan)
      → Outcome S w taken p
      → Outcome S w taken (record p { inbound = q })
  Outcome-inbound pops taken p q o = Looping-relabel p.writer q taken p o
  Outcome-inbound saw_empty taken p q o = Looping-relabel p.writer q taken p o
  Outcome-inbound finishes taken p q o = o
  Outcome-inbound ended taken p q o = Finished-inbound true taken p q o
  Outcome-inbound failed taken p q (inl o) = inl o
  Outcome-inbound failed taken p q (inr o) = inr (Finished-inbound false taken p q o)

  waiting-IsLight :
      (taken : List EventBatch) (p : Pipe Chan Out)
      → Looping S taken p
      → All IsLight taken
      → All IsLight (contents p.full)
  waiting-IsLight taken p o light =
      let (_, rest) =
        All-split IsLight o.done (under_way R p) (subst (All IsLight) (sym o.all) light) in
      (All-split IsLight (contents p.full) (in_hand p.serializer) rest).0

  pop_step-IsSound :
      (taken : List EventBatch) (p : Pipe Chan Out)
      → IsSound S taken p
      → Looping S taken p
      → All IsLight taken
      → IsSound S taken (pop_step R write finish p)
  unfolding pop_step
  pop_step-IsSound taken p h o light = elim (Batches-cases (contents p.full)) [
    | inl e ↦
        rw (pop_step, pop_nil p.full e)
          (record {
            clock = h.clock;
            size = h.size;
            within = h.within;
            fits = h.fits;
            outcome = Looping-relabel saw_empty p.inbound taken p o;
          })
    | inr (b, rest, e) ↦
        let (full, popped, behind, size) = pop_cons b rest p.full e in
        let heavy = subst (All IsLight) e (waiting-IsLight taken p o light) in
        let held = o.open_ring.valid.counted ∙ ap (sum_of bytes) o.empty_ring in
        let (pushed, open_ring) = push-IsOpen b p.ring o.open_ring (omega (arith, heavy.0, held)) in
        rw (pop_step, popped)
          (drains-IsSound S pops taken p (push b p.ring) full (b ∷ []) h o open_ring
            (ap (λ (r : Ring). r.batches) pushed ∙ ap (λ bs. bs ++ b ∷ []) o.empty_ring)
            (e ∙ ap (◌∷◌ b) (sym behind)) size
            (omega (arith, h.within, size, ap length e, ap length behind)) (λ q _ _ l. l))
  ]

  empty_step-IsSound :
      (taken : List EventBatch) (p : Pipe Chan Out)
      → IsSound S taken p
      → Looping S taken p
      → All IsLight taken
      → IsSound S taken (empty_step R write finish p)
  unfolding empty_step
  empty_step-IsSound taken p h o light =
      let waiting = contents p.full in
      let held = o.open_ring.valid.counted ∙ ap (sum_of bytes) o.empty_ring in
      let (empty, size) =
        gather_empties R (suc (length waiting)) p.full p.ring waiting refl (omega arith) in
      let (all, open_ring) =
        gather-IsOpen R (suc (length waiting)) p.full p.ring waiting refl (omega arith)
          (waiting-IsLight taken p o light) o.open_ring (omega (arith, held, h.within, h.size)) in
      elim (Bool-cases (is_finished p.serializer)) [
        | inr running ↦ rw running (record {
          clock = h.clock;
          size = h.size;
          within = h.within;
          fits = h.fits;
          outcome = Looping-relabel pops p.inbound taken p o;
        })
        | inl over ↦
            let back = finished_hand p.serializer (slots R p.full) over h.fits in
            rw over (
              drains-IsSound S finishes taken p _ _ waiting h o open_ring
                (all ∙ ap (λ bs. bs ++ waiting) o.empty_ring)
                (sym (append-nil waiting) ∙ ap (◌++◌ waiting) (sym empty)) size
                (omega (arith, ap length empty))
                (λ q s f l. (s ∙ back, all_done taken q l (ap contents f ∙ empty) (s ∙ back))))
      ]

  finish_step-IsSound :
      (taken : List EventBatch) (p : Pipe Chan Out)
      → IsSound S taken p
      → p.serializer ≡ returned
      → written S taken ≡ (true, p.out, [])
      → IsSound S taken (finish_step R write finish p.serializer p)
  unfolding finish_step
  finish_step-IsSound taken p h back d =
      subst (λ s. IsSound S taken (finish_step R write finish s p)) (sym back)
        (elim (Bool-cases ((finish p.inbound.dropped p.out).0)) [
          | inl ok ↦ rw ok (ended_with true ended ok (λ q f. f))
          | inr bad ↦ rw bad (ended_with false failed bad (λ q f. inr f))
        ])
    where
      ended_with :
          (ok : Bool) (w : Writer)
          → (finish p.inbound.dropped p.out).0 ≡ ok
          → ((q : Pipe Chan Out) → Finished S ok taken q → Outcome S w taken q)
          → IsSound S taken (record p { writer = w; out = (finish p.inbound.dropped p.out).1 })
      ended_with ok w e goes = record {
        clock = h.clock;
        size = h.size;
        within = h.within;
        fits = h.fits;
        outcome = goes _ (record {
          over = back;
          last = p.out;
          dropped = p.inbound.dropped;
          all_written = d;
          answer = λ i. (e i, (finish p.inbound.dropped p.out).1);
        });
      }

  writes_from :
      (w : Writer) (taken : List EventBatch) (p : Pipe Chan Out)
      → p.writer ≡ w
      → All IsLight taken
      → IsSound S taken p
      → Outcome S w taken p
      → IsSound S taken (write_from R write finish w p)
  unfolding write_from
  writes_from pops taken p e light h o = pop_step-IsSound taken p h o light
  writes_from saw_empty taken p e light h o = empty_step-IsSound taken p h o light
  writes_from finishes taken p e light h (back, d) = finish_step-IsSound taken p h back d
  writes_from ended taken p e light h o = h
  writes_from failed taken p e light h o = h

  -- At every point of every run of the two threads, under every interleaving and while others change all
  -- of the queue but its clock, given batches of less than `2 ^ 48` bytes each: the serializer has not
  -- panicked, and what it has in hand fits the channel. While the loop runs, the exporter has been given
  -- the batches taken off the queue, in that order, up to those still under way. Where `run_pipeline`
  -- has returned well, it was given all of them, and then `finish`; where with an error, it refused a
  -- batch and was given none behind it, or it refused `finish`, behind all of them.
  pub reaches-IsSound :
      (taken : List EventBatch) (p : Pipe Chan Out)
      → Reaches S taken p
      → All IsLight taken
      → IsSound S taken p
  unfolding writer_step
  reaches-IsSound taken p begins light = begins-IsSound S
  reaches-IsSound _ _ (serializes {taken} {p} run) light =
      serializes-IsSound S taken p
        (reaches-IsSound taken p run (All-split IsLight taken (drawn R p) light).0)
  reaches-IsSound _ _ (writes {taken} {p} run) light =
      let h = reaches-IsSound taken p run light in
      writes_from p.writer taken p refl light h h.outcome
  reaches-IsSound _ _ (records {taken} {p} q same run) light =
      let h = reaches-IsSound taken p run light in
      record {
        clock = same;
        size = h.size;
        within = h.within;
        fits = h.fits;
        outcome = Outcome-inbound p.writer taken p q h.outcome;
      }
