-- ===== src/Pipeline/Rings.antt =====
-- The ring between the channel and the exporter: emptied by each drain, and as large as memory.
use trace.Prelude.{ℕ}
use trace.Prelude.{
  All, Bool, List, [], arith, length, refl, suc, sum_of, true, u64_max, zero, ◌*◌, ◌++◌, ◌+◌, ◌<◌,
  ◌^◌, ◌∷◌, ◌≡◌,
}
use trace.Event.{Event}
use trace.Batch.{EventBatch, bytes, decode_into}
use trace.Ring.{Ring, push}
use trace.Clock.{Clock}
use trace.Ring.Evict.{IsValid}
use trace.Pipeline.{write_each, drain_from, pop_nil, pop_cons, drain, drain-write_each}
use trace.Ring.Push.{push_unbounded, push-IsValid}
use trace.Prelude.{Bool-cases, ap, inl, inr, sub64, sym, ◌⊎◌}
use trace.Prelude.{append-nil, append_assoc, ◌∙◌}
use trace.Spsc.{Spsc}
use trace.Pipeline.Threads.{gather}

-- Small enough that 256 of them fit a `usize`.
abbrev pub IsLight : EventBatch → Type 0
IsLight b = bytes b < 2 ^ 48

pub record IsOpen (r : Ring) : Type 0 where
  pub valid : IsValid r
  pub capacity : r.capacity ≡ u64_max

pub push-IsOpen :
    (b : EventBatch) (r : Ring)
    → IsOpen r
    → r.held + bytes b < 2 ^ 64
    → (push b r ≡ record r { held = r.held + bytes b; batches = r.batches ++ b ∷ [] })
      × IsOpen (push b r)
push-IsOpen b r o fits =
    let e = push_unbounded b r o.capacity fits in
    (e, record { valid = (push-IsValid b r o.valid fits).0; capacity = rw e o.capacity })

pop-IsOpen :
    (b : EventBatch) (rest : List EventBatch) (r : Ring)
    → r.batches ≡ b ∷ rest
    → IsOpen r
    → IsOpen (record r { batches = rest; held = sub64 r.held (bytes b) })
pop-IsOpen b rest r e o =
    let total = ap (sum_of bytes) e in
    let v = o.valid in
    record {
      valid = record { counted = omega (arith, total, v.counted, v.small); small = omega arith };
      capacity = o.capacity;
    }

pub Batches-cases :
    (bs : List EventBatch)
    → (bs ≡ []) ⊎ ((b : EventBatch) × (rest : List EventBatch) × (bs ≡ b ∷ rest))
Batches-cases [] = inl refl
Batches-cases (b ∷ rest) = inr (b, rest, refl)

module _ {Out : Type 0} (write : List Event → Out → Bool × Out) (clock : Clock) where
  drain_from-IsOpen :
      (fuel : ℕ) (r : Ring) (out : Out) → IsOpen r → IsOpen (drain_from write clock fuel r out).2
  unfolding drain_from
  drain_from-IsOpen zero r out o = o
  drain_from-IsOpen (suc fuel) r out o = elim (Batches-cases r.batches) [
    | inl e ↦ rw (drain_from, pop_nil r e) o
    | inr (b, rest, e) ↦
        let after : Ring = record r { batches = rest; held = sub64 r.held (bytes b) } in
        let o' : IsOpen after = pop-IsOpen b rest r e o in
        elim (Bool-cases ((write (decode_into clock b) out).0)) [
          | inl ok ↦
              rw (drain_from, pop_cons r b rest e, ok)
                (drain_from-IsOpen fuel after ((write (decode_into clock b) out).1) o')
          | inr failed ↦ rw (drain_from, pop_cons r b rest e, failed) o'
        ]
  ]

  pub write_each_left :
      (bs : List EventBatch) (out : Out)
      → (write_each write clock bs out).0 ≡ true
      → (write_each write clock bs out).2 ≡ []
  unfolding write_each
  write_each_left [] out e = refl
  write_each_left (b ∷ bs) out e = elim (Bool-cases ((write (decode_into clock b) out).0)) [
    | inl ok ↦
        rw (write_each, ok)
          (write_each_left bs ((write (decode_into clock b) out).1) (rw (write_each, ok) at e))
    | inr failed ↦ absurd (let h = rw (write_each, failed) at e in cc)
  ]

  -- Writing goes on where it stopped.
  pub write_each-append :
      (bs cs : List EventBatch) (out after : Out)
      → write_each write clock bs out ≡ (true, after, [])
      → write_each write clock (bs ++ cs) out ≡ write_each write clock cs after
  unfolding write_each
  write_each-append [] cs out after e =
      ap (write_each write clock cs) (ap (λ (r : Bool × Out × List EventBatch). r.1) e)
  write_each-append (b ∷ bs) cs out after e =
      elim (Bool-cases ((write (decode_into clock b) out).0)) [
        | inl ok ↦
            rw (write_each, ok)
              (write_each-append bs cs ((write (decode_into clock b) out).1) after
                (rw (write_each, ok) at e))
        | inr failed ↦ absurd (let h = rw (write_each, failed) at e in cc)
      ]

  -- A drain of an open ring succeeds exactly as writing its batches does, and then leaves it empty.
  pub drain-IsOpen :
      (ring : Ring) (out : Out)
      → IsOpen ring
      → let (ok, after, rest) = drain write clock ring out in
        IsOpen rest
        × (ok ≡ (write_each write clock ring.batches out).0)
        × (after ≡ (write_each write clock ring.batches out).1)
        × (ok ≡ true → rest.batches ≡ [])
  unfolding drain
  drain-IsOpen ring out o =
      let (a, b, c) = drain-write_each write clock ring out in
      (
        drain_from-IsOpen (suc (length ring.batches)) ring out o,
        a,
        b,
        λ ok. c ∙ write_each_left ring.batches out (sym a ∙ ok),
      )

module _ (R : Spsc EventBatch) where
  open R use {Chan, contents, capacity, pop_cons, pop_nil}

  -- The channel is empty afterwards.
  pub gather_empties :
      (fuel : ℕ) (c : Chan) (ring : Ring) (inside : List EventBatch)
      → contents c ≡ inside
      → length inside < fuel
      → let (d, _) = gather R fuel c ring in (contents d ≡ []) × (capacity d ≡ capacity c)
  unfolding gather
  gather_empties zero c ring inside e small = absurd (omega arith)
  gather_empties (suc fuel) c ring [] e small = rw (gather, pop_nil c e) (e, refl)
  gather_empties (suc fuel) c ring (b ∷ inside) e small =
      let (d, popped, after, size) = pop_cons b inside c e in
      let (empty, same) = gather_empties fuel d (push b ring) inside after (omega arith) in
      rw (gather, popped) (empty, same ∙ size)

  -- All that is in the channel goes into the ring, in its order.
  pub gather-IsOpen :
      (fuel : ℕ) (c : Chan) (ring : Ring) (inside : List EventBatch)
      → contents c ≡ inside
      → length inside < fuel
      → All IsLight inside
      → IsOpen ring
      → ring.held + length inside * 2 ^ 48 < 2 ^ 64
      → let (d, after) = gather R fuel c ring in
        (after.batches ≡ ring.batches ++ inside) × IsOpen after
  unfolding gather
  gather-IsOpen zero c ring inside e small light o fits = absurd (omega arith)
  gather-IsOpen (suc fuel) c ring [] e small light o fits =
      rw (gather, pop_nil c e) (sym (append-nil ring.batches), o)
  gather-IsOpen (suc fuel) c ring (b ∷ inside) e small light o fits =
      let (d, popped, after, _) = pop_cons b inside c e in
      let (pushed, o') = push-IsOpen b ring o (omega (arith, light.0)) in
      let held : (push b ring).held ≡ ring.held + bytes b = ap (λ (r : Ring). r.held) pushed in
      let bs : (push b ring).batches ≡ ring.batches ++ b ∷ [] =
        ap (λ (r : Ring). r.batches) pushed in
      let (all, open_after) =
        gather-IsOpen fuel d (push b ring) inside after (omega arith) light.1 o'
          (omega (arith, held, light.0)) in
      rw (gather, popped)
        (all ∙ ap (λ xs. xs ++ inside) bs ∙ append_assoc ring.batches (b ∷ []) inside, open_after)
