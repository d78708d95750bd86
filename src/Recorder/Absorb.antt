-- ===== src/Recorder/Absorb.antt =====
-- `absorb_all` of crates/core/src/recorder.rs: what the queue holds goes into the ring.

use trace.Recorder.{Recorder, absorb, push_all, EventBatch}
use trace.Spsc.{Spsc}
use trace.Queue.Drain.Order.{Drains, drain_batches-Drains}
use trace.Prelude.{
  List, Option, [], arith, if◌then◌else◌, length, ltb, none, refl, some, suc, zero, ℕ, ◌-◌, ◌<◌,
  ◌^◌, ◌∙◌, ◌∷◌, ◌≡◌,
}
use trace.Prelude.{Bool-cases, append-nil, false, inl, inr, subst}
use trace.Queue.Drain.Waiting.{waiting, waiting-Drains, waiting-Cleared, Drains-append}

-- `usize::MAX`
abbrev pub no_limit : ℕ
no_limit = 2 ^ 64 - 1

module _ (R : Spsc EventBatch) where
  open R use {Chan, contents}

  -- `while self.absorb(usize::MAX) > 0 {}`, in so many rounds at most; `none` where they run out.
  unfoldable pub absorb_all : ℕ → Recorder Chan → Option (Recorder Chan)
  absorb_all zero r = none
  absorb_all (suc rounds) r = elim (absorb R no_limit r) [
    | none ↦ none
    | some (drained, q) ↦ let rest = absorb_all rounds q in if ltb 0 drained then rest else some q
  ]

  empty_lem : (batches : List EventBatch) → length batches ≡ 0 → batches ≡ []
  empty_lem [] e = refl
  empty_lem (b ∷ batches) e = absurd (omega arith)

  -- One round.
  pub absorb_lem :
      (r : Recorder Chan)
      → waiting R r.inbound.consumers < no_limit
      → (taken : List EventBatch) × (q : Recorder Chan) × (absorb R no_limit r
          ≡ some (length taken, q))
        × Drains R r.inbound.consumers taken q.inbound.consumers
        × (q.ring ≡ push_all taken r.ring)
        × (q.windows ≡ r.windows)
        × (waiting R q.inbound.consumers ≡ 0)
        × (length taken ≡ waiting R r.inbound.consumers)
  unfolding absorb
  absorb_lem r small =
      let (taken, queue, e, run, bound, cleared, _) =
        drain_batches-Drains R no_limit r.inbound (omega arith) in
      let sum = waiting-Drains R run in
      let nothing = waiting-Cleared R queue.consumers (cleared (omega arith)) in
      (
        taken,
        record r { inbound = queue; ring = push_all taken r.ring },
        rw (absorb, e) refl,
        run,
        refl,
        refl,
        nothing,
        omega (arith, sum, nothing),
      )

  -- If fewer batches than `usize::MAX` wait, then `absorb_all` ends within two rounds: it empties
  -- every ring, and pushes what they held onto the recorder's ring, in their order.
  pub absorb_all-Drains :
      (r : Recorder Chan)
      → waiting R r.inbound.consumers < no_limit
      → (taken : List EventBatch) × (q : Recorder Chan) × (absorb_all 2 r ≡ some q)
        × Drains R r.inbound.consumers taken q.inbound.consumers
        × (q.ring ≡ push_all taken r.ring)
        × (q.windows ≡ r.windows)
        × (waiting R q.inbound.consumers ≡ 0)
  unfolding absorb_all push_all
  absorb_all-Drains r small =
      let (taken, q, e, run, ring, windows, empty, size) = absorb_lem r small in
      elim (Bool-cases (ltb 0 (length taken))) [
        | inl some_taken ↦
            let (more, p, e', run', ring', windows', empty', size') =
              absorb_lem q (omega (arith, empty)) in
            let stops : ltb 0 (length more) ≡ false = ground (arith, size', empty) in
            let none_more : more ≡ [] = empty_lem more (omega (arith, size', empty)) in
            (
              taken,
              p,
              rw (absorb_all, e, some_taken, absorb_all, e', stops) refl,
              subst (λ ts. Drains R r.inbound.consumers ts p.inbound.consumers) (append-nil taken)
                  (Drains-append R run (
                    subst (λ ts. Drains R q.inbound.consumers ts p.inbound.consumers) none_more
                      run')),
              rw (ring', none_more, push_all, ring) refl,
              windows' ∙ windows,
              empty',
            )
        | inr none_taken ↦
            (taken, q, rw (absorb_all, e, none_taken) refl, run, ring, windows, empty)
      ]
