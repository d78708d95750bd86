-- ===== src/Pipeline/Order.antt =====
-- A step of the serializer, and a drain of the writer, between the states of a run.

use trace.Pipeline.Threads.{Writer, pops, saw_empty, finishes, ended, failed, Pipe, start, drain_to}
use trace.Pipeline.Rings.{IsOpen, drain-IsOpen, write_each-append, write_each_left}
use trace.Prelude.{
  Bool, Bool-cases, List, [], ap, append-nil, append_assoc, arith, false, if◌then◌else◌, inl, inr,
  refl, subst, sym, true, ◌++◌, ◌∙◌, ◌≡◌, ◌⊎◌,
}
use trace.Pipeline.Runs.{Setup, IsSound, Finished, Outcome, Looping, written}
use trace.Pipeline.{write_each, Ring, drain}
use trace.Batch.{EventBatch}
use trace.Clock.{Clock}
use trace.Pipeline.Serializing.{Serializes, drawn, under_way, serializer_step-Serializes, in_hand}
use trace.Pipeline.Threads.{fanin_batches, serializer_step}
use trace.Prelude.{length, ◌≤◌}
use trace.Prelude.{length-append}
use trace.Pipeline.Serializing.{Fits, Fits-grows}
use trace.Pipeline.Threads.{slots}

module _ (S : Setup) where
  open S use {
    R,
    Out,
    write,
    finish,
    inbound,
    before,
    R.{Chan, contents, capacity},
    R.contents-create as created_empty,
    R.capacity-create as created_size,
  }

  pub begins-IsSound : IsSound S [] (start R inbound before)
  unfolding start write_each trace.Ring.new
  begins-IsSound = record {
    clock = refl;
    size = created_size fanin_batches;
    within = rw (created_empty fanin_batches) (omega arith);
    fits = tt;
    outcome = record {
      done = [];
      all = rw (created_empty fanin_batches) refl;
      so_far = refl;
      open_ring = record {
        valid = record { counted = refl; small = omega arith };
        capacity = refl;
      };
      empty_ring = refl;
    };
  }

  Looping-carried :
      (taken more : List EventBatch) (p q : Pipe Chan Out)
      → Serializes R p more q
      → Looping S taken p
      → Looping S (taken ++ more) q
  Looping-carried taken more p q s o = record {
    done = o.done;
    all =
        ap (◌++◌ o.done) s.flow
        ∙ sym (append_assoc o.done (under_way R p) more)
        ∙ ap (λ xs. xs ++ more) o.all;
    so_far = o.so_far ∙ ap (λ out. (true, out, [])) (sym s.out);
    open_ring = subst IsOpen (sym s.ring) o.open_ring;
    empty_ring = ap (λ (r : Ring). r.batches) s.ring ∙ o.empty_ring;
  }

  Finished-carried :
      (ok : Bool) (taken more : List EventBatch) (p q : Pipe Chan Out)
      → Serializes R p more q
      → Finished S ok taken p
      → Finished S ok (taken ++ more) q
  Finished-carried ok taken more p q s o =
      let (over, nothing) = s.stays o.over in
      record {
        over = over;
        last = o.last;
        dropped = o.dropped;
        all_written = rw (nothing, append-nil taken) o.all_written;
        answer = o.answer ∙ ap (λ out. (ok, out)) (sym s.out);
      }

  -- A step of the serializer carries the outcome on.
  carries :
      (w : Writer) (taken more : List EventBatch) (p q : Pipe Chan Out)
      → Serializes R p more q
      → Outcome S w taken p
      → Outcome S w (taken ++ more) q
  carries pops taken more p q s o = Looping-carried taken more p q s o
  carries saw_empty taken more p q s o = Looping-carried taken more p q s o
  carries finishes taken more p q s (over, o) =
      let (over', nothing) = s.stays over in
      (over', rw (nothing, append-nil taken) (o ∙ ap (λ out. (true, out, [])) (sym s.out)))
  carries ended taken more p q s o = Finished-carried true taken more p q s o
  carries failed taken more p q s (inl o) = inl (record {
    offered = o.offered;
    later = o.later ++ more;
    all = sym (append_assoc o.offered o.later more) ∙ ap (λ xs. xs ++ more) o.all;
    refused = o.refused;
    state = o.state ∙ sym s.out;
  })
  carries failed taken more p q s (inr o) = inr (Finished-carried false taken more p q s o)

  pub serializes-IsSound :
      (taken : List EventBatch) (p : Pipe Chan Out)
      → IsSound S taken p
      → IsSound S (taken ++ drawn R p) (serializer_step R p)
  serializes-IsSound taken p h =
      let s = serializer_step-Serializes R p h.fits h.within in
      record {
        clock = s.clock ∙ h.clock;
        size = s.size ∙ h.size;
        within = s.within;
        fits = s.fits;
        outcome =
            subst (λ w. Outcome S w (taken ++ drawn R p) (serializer_step R p)) (sym s.writer)
              (carries p.writer taken (drawn R p) p _ s h.outcome);
      }

  -- What a drain of the ring leaves, where `offered` is written S already.
  Drained : List EventBatch → Writer → Pipe Chan Out → Pipe Chan Out → Type 0
  Drained offered next p q =
      ((rest : Ring) × (after : Out) × (q ≡ record p { writer = next; ring = rest; out = after })
        × (written S offered ≡ (true, after, []))
        × IsOpen rest
        × (rest.batches ≡ []))
      ⊎ ((rest : Ring) × (after : Out) × (q
            ≡ record p { writer = failed; ring = rest; out = after })
          × ((written S offered).0 ≡ false)
          × ((written S offered).1 ≡ after))

  drain-Drained :
      (clock : Clock) (next : Writer) (ring : Ring) (p : Pipe Chan Out) (done : List EventBatch)
      → clock ≡ inbound.clock
      → IsOpen ring
      → written S done ≡ (true, p.out, [])
      → let (ok, after, rest) = drain write clock ring p.out in
        Drained
          (done ++ ring.batches)
          next
          p
          (record p { writer = if ok then next else failed; ring = rest; out = after })
  unfolding Drained
  drain-Drained clock next ring p done same o d =
      let (kept, ok_is, out_is, empty) = drain-IsOpen write inbound.clock ring p.out o in
      let on = write_each-append write inbound.clock done ring.batches before p.out d in
      let all_written = λ (good : (drain write inbound.clock ring p.out).0 ≡ true). on ∙ (λ i. (
        (sym ok_is ∙ good) i,
        sym out_is i,
        write_each_left write inbound.clock ring.batches p.out (sym ok_is ∙ good) i,
      )) in
      let (ok, after, rest) = drain write inbound.clock ring p.out in
      rw same (elim (Bool-cases ok) [
        | inl good ↦ rw good (inl (rest, after, refl, all_written good, kept, empty good))
        | inr bad ↦ rw bad (
            inr (
              rest,
              after,
              refl,
              ap (λ (r : Bool × Out × List EventBatch). r.0) on ∙ sym ok_is ∙ bad,
              ap (λ (r : Bool × Out × List EventBatch). r.1) on ∙ sym out_is,
            ))
      ])

  -- A drain from the loop, of a ring that holds what was taken off the channel.
  pub drains-IsSound :
      (next : Writer) (taken : List EventBatch) (p : Pipe Chan Out) (ring : Ring) (full : Chan)
      (popped : List EventBatch)
      → IsSound S taken p
      → (o : Looping S taken p) → IsOpen ring
      → ring.batches ≡ popped
      → contents p.full ≡ popped ++ contents full
      → capacity full ≡ capacity p.full
      → length (contents full) ≤ capacity full
      → ((q : Pipe Chan Out)
          → q.serializer ≡ p.serializer
          → q.full ≡ full
          → Looping S taken q
          → Outcome S next taken q)
      → IsSound S taken (drain_to R write finish next ring (record p { full = full }))
  unfolding drain_to Drained
  drains-IsSound next taken p ring full popped h o open_ring holds split same within goes =
      let q : Pipe Chan Out = record p { full = full } in
      let offered : List EventBatch = o.done ++ ring.batches in
      let all : offered ++ under_way R q ≡ taken =
        append_assoc o.done ring.batches (under_way R q)
        ∙ ap (◌++◌ o.done) (
            ap (λ xs. xs ++ under_way R q) holds
            ∙ sym (append_assoc popped (contents full) (in_hand p.serializer))
            ∙ ap (λ xs. xs ++ in_hand p.serializer) (sym split))
        ∙ o.all in
      let fits : Fits p.serializer (slots R full) =
        Fits-grows p.serializer (slots R p.full) (slots R full)
          (omega (arith, same, ap length split, length-append popped (contents full))) h.fits in
      elim (drain-Drained p.inbound.clock next ring q o.done h.clock open_ring o.so_far) [
        | inl (rest, after, e, d, kept, empty) ↦ subst (IsSound S taken) (sym e) (record {
          clock = h.clock;
          size = same ∙ h.size;
          within = within;
          fits = fits;
          outcome =
              goes (record q { writer = next; ring = rest; out = after }) refl refl
                (record {
                  done = offered;
                  all = all;
                  so_far = d;
                  open_ring = kept;
                  empty_ring = empty;
                });
        })
        | inr (rest, after, e, bad, state) ↦ subst (IsSound S taken) (sym e) (record {
          clock = h.clock;
          size = same ∙ h.size;
          within = within;
          fits = fits;
          outcome = inl (record {
            offered = offered;
            later = under_way R q;
            all = all;
            refused = bad;
            state = state;
          });
        })
      ]
