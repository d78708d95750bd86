-- ===== src/Pipeline/Serializing.antt =====
-- What a step of the serializer thread does to the batches on their way.
use trace.Prelude.{ℕ}
use trace.Pipeline.Threads.{Serializer, at_loop, sized, drained_nothing, hands, returned, panicked}
use trace.Prelude.{
  List, [], ap, append-nil, arith, length, refl, sym, ◌++◌, ◌<◌, ◌∙◌, ◌∷◌, ◌≡◌, ◌≤◌,
}
use trace.Spsc.{Spsc}
use trace.Pipeline.Threads.{Serializer, sized, Pipe, hands, serializer_step, slots, drain_step}
use trace.Batch.{EventBatch}
use trace.Pipeline.Threads.{step_from, returned, hand_step, is_abandoned}
use trace.Prelude.{Bool-cases, append_assoc, inl, inr, length-append, some, ◌+◌, ◌==◌}
use trace.Queue.{EventQueue}
use trace.Queue.Drain.Order.{drain_batches-Drains}
use trace.Queue.Drain.{drain_batches}
use trace.Prelude.{false, if◌then◌else◌, true}

abbrev pub in_hand : Serializer → List EventBatch
in_hand (hands batches) = batches
in_hand _ = []

-- What the serializer relies on, where so many slots are free.
abbrev pub Fits : Serializer → ℕ → Type 0
Fits (sized room) free = (0 < room) × (room ≤ free)
Fits (hands batches) free = length batches ≤ free
Fits panicked free = ⊥
Fits _ free = Unit {0}

pub Fits-grows : (s : Serializer) (n m : ℕ) → n ≤ m → Fits s n → Fits s m
Fits-grows at_loop n m h f = tt
Fits-grows (sized room) n m h f = omega arith
Fits-grows drained_nothing n m h f = tt
Fits-grows (hands batches) n m h f = omega arith
Fits-grows returned n m h f = tt
Fits-grows panicked n m h f = f

module _ (R : Spsc EventBatch) {Out : Type 0} where
  open R use {Chan, contents, capacity, push_room}

  -- The batches that a step of the serializer takes off the queue.
  unfoldable pub drawn_by : Serializer → Pipe Chan Out → List EventBatch
  drawn_by (sized room) p = in_hand (drain_step R room p).serializer
  drawn_by _ p = []

  unfoldable pub drawn : Pipe Chan Out → List EventBatch
  unfolding drawn_by
  drawn p = drawn_by p.serializer p

  -- Batches between the queue and the writer, oldest first.
  abbrev pub under_way : Pipe Chan Out → List EventBatch
  under_way p = contents p.full ++ in_hand p.serializer

  -- From `p` to `q`, a step of the serializer that takes `taken` off the queue.
  pub record Serializes (p : Pipe Chan Out) (taken : List EventBatch) (q : Pipe Chan Out)
      : Type 0 where
    pub writer : q.writer ≡ p.writer
    pub ring : q.ring ≡ p.ring
    pub out : q.out ≡ p.out
    pub clock : q.inbound.clock ≡ p.inbound.clock
    pub closed : q.inbound.closed ≡ p.inbound.closed
    pub size : capacity q.full ≡ capacity p.full
    pub within : length (contents q.full) ≤ capacity q.full
    pub fits : Fits q.serializer (slots R q.full)
    pub flow : under_way q ≡ under_way p ++ taken
    pub stays : p.serializer ≡ returned → (q.serializer ≡ returned) × (taken ≡ [])

  -- Only the serializer's place changes.
  moves :
      (p : Pipe Chan Out) (s : Serializer)
      → length (contents p.full) ≤ capacity p.full
      → in_hand s ≡ in_hand p.serializer
      → Fits s (slots R p.full)
      → (p.serializer ≡ returned → s ≡ returned)
      → Serializes p [] (record p { serializer = s })
  moves p s within same f stays = record {
    writer = refl;
    ring = refl;
    out = refl;
    clock = refl;
    closed = refl;
    size = refl;
    within = within;
    fits = f;
    flow = ap (◌++◌ (contents p.full)) same ∙ sym (append-nil (under_way p));
    stays = λ e. (stays e, refl);
  }

  drained :
      (p : Pipe Chan Out) (room : ℕ) (taken : List EventBatch) (q : EventQueue Chan)
      → p.serializer ≡ sized room
      → room ≤ slots R p.full
      → length (contents p.full) ≤ capacity p.full
      → drain_batches R room p.inbound ≡ some (taken, q)
      → length taken ≤ room
      → q.clock ≡ p.inbound.clock
      → q.closed ≡ p.inbound.closed
      → Serializes p (in_hand (drain_step R room p).serializer) (drain_step R room p)
  unfolding drain_step
  drained p room [] q e fits within d short c k =
      rw (drain_step, d)
        (record {
          writer = refl;
          ring = refl;
          out = refl;
          clock = c;
          closed = k;
          size = refl;
          within = within;
          fits = tt;
          flow = rw e (sym (append-nil (contents p.full ++ [])));
          stays = λ h. absurd (let f = sym e ∙ h in cc);
        })
  drained p room (b ∷ taken) q e fits within d short c k =
      rw (drain_step, d)
        (record {
          writer = refl;
          ring = refl;
          out = refl;
          clock = c;
          closed = k;
          size = refl;
          within = within;
          fits = omega arith;
          flow = rw e (sym (append_assoc (contents p.full) [] (b ∷ taken)));
          stays = λ h. absurd (let f = sym e ∙ h in cc);
        })

  handed :
      (p : Pipe Chan Out) (b : EventBatch) (batches : List EventBatch)
      → p.serializer ≡ hands (b ∷ batches)
      → length (b ∷ batches) ≤ slots R p.full
      → Serializes p [] (hand_step R b batches p)
  unfolding hand_step
  handed p b batches e fits =
      let (full, sent, behind, same) = push_room b p.full (omega arith) in
      let longer : length (contents full) ≡ length (contents p.full) + 1 =
        ap length behind ∙ length-append (contents p.full) (b ∷ []) in
      rw (hand_step, sent)
        (record {
          writer = refl;
          ring = refl;
          out = refl;
          clock = refl;
          closed = refl;
          size = same;
          within = omega (arith, longer, same);
          fits = omega (arith, longer, same);
          flow =
              ap (λ cs. cs ++ batches) behind
              ∙ append_assoc (contents p.full) (b ∷ []) batches
              ∙ rw e (sym (append-nil (contents p.full ++ b ∷ batches)));
          stays = λ h. absurd (let f = sym e ∙ h in cc);
        })

  serializes_from :
      (s : Serializer) (p : Pipe Chan Out)
      → p.serializer ≡ s
      → Fits s (slots R p.full)
      → length (contents p.full) ≤ capacity p.full
      → Serializes p (drawn_by s p) (step_from R s p)
  unfolding step_from drawn_by
  serializes_from at_loop p e f within = elim (Bool-cases (is_abandoned p.writer)) [
    | inl gone ↦ rw gone (moves p returned within (rw e refl) tt (λ h. refl))
    | inr here ↦ elim (Bool-cases (slots R p.full == 0)) [
      | inl none_free ↦ rw (here, none_free) (moves p p.serializer within refl (rw e tt) (λ h. h))
      | inr some_free ↦
          rw (here, some_free)
            (moves p (sized (slots R p.full)) within (rw e refl) (ground arith)
              (λ h. absurd (let f = sym e ∙ h in cc)))
    ]
  ]
  serializes_from (sized room) p e (pos, fits) within =
      let (taken, q, d, _, short, _, rest) = drain_batches-Drains R room p.inbound pos in
      drained p room taken q e fits within d short (ap (λ (r : EventQueue Chan). r.clock) rest)
        (ap (λ (r : EventQueue Chan). r.closed) rest)
  serializes_from drained_nothing p e f within =
      elim p.inbound.closed
        as (λ b. Serializes p [] (record p { serializer = if b then returned else at_loop })) [
          | true ↦ moves p returned within (rw e refl) tt (λ h. refl)
          | false ↦ moves p at_loop within (rw e refl) tt (λ h. absurd (let f = sym e ∙ h in cc))
        ]
  serializes_from (hands []) p e f within =
      moves p at_loop within (rw e refl) tt (λ h. absurd (let f = sym e ∙ h in cc))
  serializes_from (hands (b ∷ batches)) p e f within = handed p b batches e f
  serializes_from returned p e f within = moves p p.serializer within refl (rw e tt) (λ h. h)
  serializes_from panicked p e f within = elim f [ ]

  pub serializer_step-Serializes :
      (p : Pipe Chan Out)
      → Fits p.serializer (slots R p.full)
      → length (contents p.full) ≤ capacity p.full
      → Serializes p (drawn p) (serializer_step R p)
  unfolding serializer_step drawn
  serializer_step-Serializes p f within = serializes_from p.serializer p refl f within
