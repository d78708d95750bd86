-- ===== src/Pipeline/Emptying.antt =====
-- A closed queue and the two threads of crates/core/src/pipeline.rs, taking turns: what comes of the
-- batches in its rings.
use trace.Prelude.{ℕ}
use trace.Queue.Drain.Order.{Drains, over, front, drain_batches-Drains}
use trace.Pipeline.Threads.{Serializer, at_loop, sized, drained_nothing, hands, returned, panicked}
use trace.Pipeline.Threads.{Writer, pops, saw_empty, finishes, ended, failed, Pipe, slots}
use trace.Prelude.{
  All, All-append, All-split, Bool-cases, List, [], ap, get_elem?, if◌then◌else◌, inl, inr, length,
  set, some, some-injective, subst, suc, sym, true, zero, ◌++◌, ◌<◌, ◌==◌, ◌∙◌, ◌∷◌, ◌≡◌, ◌⊎◌,
}
use trace.Spsc.{Spsc}
use trace.Batch.{EventBatch}
use trace.Pipeline.Rings.{IsLight}
use trace.Pipeline.Threads.{step_from, drain_step, is_abandoned, hand_step}
use trace.Queue.Drain.Waiting.{waiting, waiting-Cleared}
use trace.Queue.{EventQueue}
use trace.Pipeline.Serializing.{drawn_by, Fits, in_hand}
use trace.Queue.Drain.{drain_batches}
use trace.Prelude.{arith, refl}

module _ (R : Spsc EventBatch) where
  open R use {Chan, contents}

  -- Each batch in the rings is light.
  abbrev pub AllLight : List Chan → Type 0
  AllLight cs = All (λ c. All IsLight (contents c)) cs

  set-AllLight :
      (cs : List Chan) (index : ℕ) (c d : Chan) (taken : List EventBatch)
      → get_elem? cs index ≡ some c
      → contents c ≡ taken ++ contents d
      → AllLight cs
      → All IsLight taken × AllLight (set cs index d)
  set-AllLight [] index c d taken e all light = cc
  set-AllLight (b ∷ cs) zero c d taken e all light =
      let q : b ≡ c = some-injective _ _ e in
      let (left, right) =
        All-split IsLight taken (contents d) (subst (All IsLight) (ap contents q ∙ all) light.0) in
      (left, (right, light.1))
  set-AllLight (b ∷ cs) (suc index) c d taken e all light =
      let (left, right) = set-AllLight cs index c d taken e all light.1 in (left, (light.0, right))

  pub Drains-AllLight :
      {cs ds : List Chan} {taken : List EventBatch}
      → Drains R cs taken ds
      → AllLight cs
      → All IsLight taken × AllLight ds
  Drains-AllLight over light = (tt, light)
  Drains-AllLight (front {cs} {ds} {more} index c d taken found all run) light =
      let (here, rest) = set-AllLight cs index c d taken found all light in
      let (later, last) = Drains-AllLight run rest in
      (All-append IsLight taken more here later, last)

abandoned : (w : Writer) → is_abandoned w ≡ true → (w ≡ ended → ⊥) → w ≡ failed
abandoned ended e h = absurd (h refl)
abandoned failed e h = refl
abandoned pops e h = cc
abandoned saw_empty e h = cc
abandoned finishes e h = cc

module _ (R : Spsc EventBatch) {Out : Type 0} where
  open R use {Chan, contents, push_room}

  -- A serializer that has found nothing has emptied the rings, on a queue where nobody records.
  abbrev pub Emptied : Serializer → Pipe Chan Out → Type 0
  Emptied drained_nothing p = waiting R p.inbound.consumers ≡ 0
  Emptied returned p = (p.writer ≡ failed) ⊎ (waiting R p.inbound.consumers ≡ 0)
  Emptied _ p = Unit {0}

  drained_step :
      (p : Pipe Chan Out) (room : ℕ) (taken : List EventBatch) (q : EventQueue Chan)
      → drain_batches R room p.inbound ≡ some (taken, q)
      → Drains R p.inbound.consumers taken q.consumers
      → (length taken < room → waiting R q.consumers ≡ 0)
      → 0 < room
      → let r = drain_step R room p in
        Drains R p.inbound.consumers (in_hand r.serializer) r.inbound.consumers
        × Emptied r.serializer r
  unfolding drain_step
  drained_step p room [] q d run empty pos = rw (drain_step, d) (run, empty pos)
  drained_step p room (b ∷ taken) q d run empty pos = rw (drain_step, d) (run, tt)

  pub steps_from :
      (s : Serializer) (p : Pipe Chan Out)
      → p.serializer ≡ s
      → Fits s (slots R p.full)
      → p.inbound.closed ≡ true
      → (p.writer ≡ ended → s ≡ returned)
      → Emptied s p
      → let r = step_from R s p in
        Drains R p.inbound.consumers (drawn_by R s p) r.inbound.consumers × Emptied r.serializer r
  unfolding step_from drawn_by hand_step
  steps_from at_loop p e f closed last h = elim (Bool-cases (is_abandoned p.writer)) [
    | inl gone ↦ rw gone (over, inl (abandoned p.writer gone (λ w. let k = last w in cc)))
    | inr here ↦ elim (Bool-cases (slots R p.full == 0)) [
      | inl none_free ↦ rw (here, none_free) (over, subst (λ s. Emptied s p) (sym e) tt)
      | inr some_free ↦ rw (here, some_free) (over, tt)
    ]
  ]
  steps_from (sized room) p e (pos, fits) closed last h =
      let (taken, q, d, run, _, cleared, _) = drain_batches-Drains R room p.inbound pos in
      drained_step p room taken q d run (λ less. waiting-Cleared R q.consumers (cleared less)) pos
  steps_from drained_nothing p e f closed last h =
      subst
        (λ b.
          let r = record p { serializer = if b then returned else at_loop } in
          Drains R p.inbound.consumers [] r.inbound.consumers × Emptied r.serializer r)
        (sym closed) (over, inr h)
  steps_from (hands []) p e f closed last h = (over, tt)
  steps_from (hands (b ∷ batches)) p e f closed last h =
      let (full, sent, _, _) = push_room b p.full (omega arith) in rw (hand_step, sent) (over, tt)
  steps_from returned p e f closed last h = (over, subst (λ s. Emptied s p) (sym e) h)
  steps_from panicked p e f closed last h = elim f [ ]
