-- ===== src/Queue/Push.antt =====
-- `push_with_ctx` of crates/core/src/evqueue.rs, against the entries that a queue holds.
use trace.Prelude.{◌==◌, true, length-take, Bool-cases, subst, get_elem?-lt}
use trace.Prelude.{ℕ, ◌^◌, ◌≤◌, ◌<◌, ◌≡◌, refl, ◌⊎◌, inl, inr, some, List, [], ◌∷◌, ◌++◌}
use trace.Prelude.{arith, add64, sub64, get_elem?, set, length, Option, suc, ◌∙◌, ap}
use trace.Event.{EventKind, PackedEvent, pack_code_kind}
use trace.Batch.{EventBatch, batch_n, with_capacity}
use trace.Spsc.{Spsc}
use trace.Tls.{Thread, arm, fresh_slots, blank}
use trace.Queue.{EventQueue, write_next, ship_and_renew, slow_path, push_with_ctx}
use trace.Queue.Entries.{Entry, entry, entries, all_entries, so_far, Writes, all_entries-append}
use trace.Queue.{delta_overflow, refill, renew}
use trace.Prelude.{◌%◌, dec_lt, length-replicate, sym}
use trace.Prelude.{append_assoc, get_elem?-set_self, append-nil}
use trace.Queue.Writing.{
  write_next-Writes, base-add-delta, begun-Writes, commit_lem, goes_fast, goes_fast_bounds,
}

module _ (R : Spsc EventBatch) where
  open R use {Chan, push, contents, capacity, push_room, push_full}

  -- A thread that records into ring `chan` of the queue, at place `index`.
  pub record Live (q : EventQueue Chan) (t : Thread) (index : ℕ) (chan : Chan) (b : EventBatch)
      (i : ℕ) : Type 0 where
    pub writes : Writes t b i
    pub producer : t.producer ≡ some (q.id, index)
    pub consumer : get_elem? q.consumers index ≡ some chan
    pub based : b.base_ticks < 2 ^ 64

  -- What the queue holds of the thread, oldest first: its ring, then its batch.
  abbrev pub held : Chan → EventBatch → Thread → List Entry
  held chan b t = all_entries (contents chan) ++ entries (so_far b t)

  -- How a call may end for a new entry: it stands behind all earlier ones and nothing else changes,
  -- or the ring had no room, and the `i` events of the batch in hand are lost and counted.
  abbrev pub Outcome :
      Entry
      → EventQueue Chan
      → Chan
      → EventBatch
      → Thread
      → ℕ
      → EventQueue Chan
      → Chan
      → EventBatch
      → Thread
      → Type 0
  Outcome new q chan b t i r chan' b' u =
      ((held chan' b' u ≡ held chan b t ++ new ∷ []) × (r.dropped ≡ q.dropped))
      ⊎ ((capacity chan ≤ length (contents chan))
          × (held chan' b' u ≡ all_entries (contents chan) ++ new ∷ [])
          × (r.dropped ≡ add64 q.dropped i))

  abbrev pub Recorded :
      Entry
      → EventQueue Chan
      → Thread
      → ℕ
      → Chan
      → EventBatch
      → ℕ
      → Option (EventQueue Chan × Thread)
      → Type 0
  Recorded new q t index chan b i result =
      (r : EventQueue Chan) × (u : Thread) × (chan' : Chan) × (b' : EventBatch) × (i' : ℕ) × (result
        ≡ some (r, u))
      × Live r u index chan' b' (suc i')
      × Outcome new q chan b t i r chan' b' u

  fast-Recorded :
      (q : EventQueue Chan) (t : Thread) (index : ℕ) (chan : Chan) (b : EventBatch) (i : ℕ)
      (ticks code_kind : ℕ)
      → Live q t index chan b i
      → i < batch_n
      → ticks < 2 ^ 64
      → sub64 ticks t.hot.base_ticks ≤ delta_overflow
      → Recorded
          (ticks, b.tid, code_kind)
          q
          t
          index
          chan
          b
          i
          (some (
            q,
            write_next
                (record {
                  delta_ticks = sub64 ticks t.hot.base_ticks % 2 ^ 32;
                  code_kind = code_kind;
                })
                t,
          ))
  unfolding write_next
  fast-Recorded q t index chan b i ticks code_kind l h small near =
      let p : PackedEvent = record {
        delta_ticks = sub64 ticks t.hot.base_ticks % 2 ^ 32;
        code_kind = code_kind;
      } in
      let (w, e) = write_next-Writes t b i p l.writes h in
      let exact : entry b.base_ticks b.tid p ≡ (ticks, b.tid, code_kind) =
        ap (λ (n : ℕ). (n, b.tid, code_kind))
          (rw l.writes.base
            (base-add-delta b.base_ticks ticks l.based small (rw l.writes.base at near))) in
      (
        q,
        write_next p t,
        chan,
        b,
        i,
        refl,
        record { writes = w; producer = l.producer; consumer = l.consumer; based = l.based },
        inl (
          ap (◌++◌ (all_entries (contents chan)))
                (e ∙ ap (λ n. entries (so_far b t) ++ n ∷ []) exact)
              ∙ sym (append_assoc (all_entries (contents chan)) (entries (so_far b t)) _),
          refl,
        ),
      )

  refill_lem :
      (q : EventQueue Chan) (t : Thread) (index ticks tid : ℕ) (p : Option (ℕ × ℕ))
      → p ≡ some (q.id, index)
      → refill R p ticks tid q t ≡ ship_and_renew R ticks tid index q t
  unfolding refill
  refill_lem q t index ticks tid p e =
      let same : (q.id == q.id) ≡ true = ground arith in rw e (rw same)

  ship_and_renew_lem :
      (q : EventQueue Chan) (t : Thread) (index : ℕ) (chan : Chan) (b : EventBatch) (ticks tid : ℕ)
      → t.batch ≡ some b
      → get_elem? q.consumers index ≡ some chan
      → let full = so_far b t in
        ship_and_renew R ticks tid index q t
        ≡ some (renew R ticks tid full index (push full chan) q (record t { batch = some full }))
  unfolding ship_and_renew
  ship_and_renew_lem q t index chan b ticks tid e f =
      rw (commit_lem t b e, ship_and_renew) (rw f (rw (commit_lem t b e)))

  slow_path_lem :
      (q : EventQueue Chan) (t : Thread) (index : ℕ) (chan : Chan) (b : EventBatch) (i : ℕ)
      (ticks tid code_kind : ℕ)
      → Live q t index chan b i
      → let full = so_far b t in
        let (r, u) =
          renew R ticks tid full index (push full chan) q (record t { batch = some full }) in
        slow_path R ticks tid code_kind q t
        ≡ some (r, write_next (record { delta_ticks = 0; code_kind = code_kind }) u)
  unfolding slow_path
  slow_path_lem q t index chan b i ticks tid code_kind l =
      let step =
        refill_lem q t index ticks tid t.producer l.producer
        ∙ ship_and_renew_lem q t index chan b ticks tid l.writes.batch l.consumer in
      rw (step, slow_path)

  renewed-Recorded :
      (q : EventQueue Chan) (t : Thread) (index : ℕ) (chan : Chan) (b : EventBatch) (i : ℕ)
      (ticks tid code_kind : ℕ)
      → Live q t index chan b i
      → ticks < 2 ^ 64
      → Recorded (ticks, tid, code_kind) q t index chan b i (slow_path R ticks tid code_kind q t)
  unfolding renew with_capacity write_next arm
  renewed-Recorded q t index chan b i ticks tid code_kind l small =
      elim (dec_lt (length (contents chan)) (capacity chan)) [
        | yes room ↦
            let (d, pushed, after, _) = push_room (so_far b t) chan room in
            let fresh = with_capacity batch_n ticks tid in
            let (w, one) =
              begun-Writes (record t { batch = some fresh; slots = fresh_slots }) fresh code_kind
                refl (length-replicate batch_n blank) small in
            (
              record q { consumers = set q.consumers index d },
              _,
              d,
              fresh,
              0,
              slow_path_lem q t index chan b i ticks tid code_kind l ∙ rw pushed refl,
              record {
                writes = w;
                producer = l.producer;
                consumer =
                    get_elem?-set_self q.consumers index d
                      (get_elem?-lt q.consumers index l.consumer);
                based = small;
              },
              inl (
                rw (one, after, all_entries-append (contents chan) (so_far b t ∷ []))
                    (ap (λ xs. (all_entries (contents chan) ++ xs) ++ (ticks, tid, code_kind) ∷ [])
                      (append-nil (entries (so_far b t)))),
                refl,
              ),
            )
        | no full ↦
            let reused : EventBatch = record b { events = []; base_ticks = ticks; tid = tid } in
            let (w, one) =
              begun-Writes (record t { batch = some reused }) reused code_kind refl l.writes.room
                small in
            let lost : length (so_far b t).events ≡ i =
              rw l.writes.cursor (omega (arith, length-take i t.slots, l.writes.room)) in
            let none_left = push_full (so_far b t) chan (omega arith) in
            (
              record q { dropped = add64 q.dropped (length (so_far b t).events) },
              _,
              chan,
              reused,
              0,
              slow_path_lem q t index chan b i ticks tid code_kind l ∙ rw none_left refl,
              record { writes = w; producer = l.producer; consumer = l.consumer; based = small },
              inr (
                omega arith,
                ap (◌++◌ (all_entries (contents chan))) one,
                ap (add64 q.dropped) lost,
              ),
            )
      ]

  -- A call of a thread that records into the queue, under any run id and the thread's
  -- own tid, succeeds, and leaves a thread that records into it still. Either its event stands behind
  -- all that the queue held of the thread, at exactly the ticks given, and no event is lost; or the
  -- thread's ring was full, and the events of the batch in hand, and no others, are lost and counted.
  pub push_with_ctx-Recorded :
      (q : EventQueue Chan) (t : Thread) (index : ℕ) (chan : Chan) (b : EventBatch)
      (i run ticks code_id : ℕ) (kind : EventKind)
      → Live q t index chan b i
      → ticks < 2 ^ 64
      → Recorded
          (ticks, b.tid, pack_code_kind code_id kind)
          q
          t
          index
          chan
          b
          i
          (push_with_ctx R run ticks t.hot.tid code_id kind q t)
  unfolding push_with_ctx
  push_with_ctx-Recorded q t index chan b i run ticks code_id kind l small =
      let w = l.writes in
      let ck = pack_code_kind code_id kind in
      let slow = renewed-Recorded q t index chan b i ticks t.hot.tid ck l small in
      elim (Bool-cases (goes_fast run ticks t)) [
        | inr turned ↦ rw turned (
            subst
              (λ n. Recorded (ticks, n, ck) q t index chan b i (slow_path R ticks t.hot.tid ck q t))
              w.thread slow)
        | inl fast ↦
            let (under, near) = goes_fast_bounds run ticks i t w.cursor w.limit fast in
            rw fast (
              fast-Recorded q t index chan b i ticks (pack_code_kind code_id kind) l under small
                near)
      ]
