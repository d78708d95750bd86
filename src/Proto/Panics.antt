-- ===== src/Proto/Panics.antt =====
-- Templates and `push_event` of crates/proto/src/lib.rs, in a good state.
use trace.Proto.Safety.{IsSafe, Ready, SeqFits}
use trace.Proto.Entries.{varint_lem, find_in-All}
use trace.Prelude.{
  Bool, List, Option, arith, length, length-append, refl, some, ℕ, ◌++◌, ◌+◌, ◌<◌, ◌^◌, ◌∷◌, ◌≡◌,
  ◌≤◌,
}
use trace.Proto.Templates.{store_template, push_event, kept, appended, pushed}
use trace.Proto.Sequences.{Outside}
use trace.Proto.Packet.{TracePacket}
use trace.Proto.Templates.{template, kept_template, make_template}
use trace.Proto.{ProtoExporter, find_in}
use trace.Sink.{CodeInfo}
use trace.Proto.Action.{After, pure-After, >>=-After, or_panic-After, gets-After, or_panic}
use trace.Prelude.{none}
use trace.Proto.{tag_track_event, packet_tag, tag_timestamp}
use trace.Proto.Templates.{template_key}
use trace.Prelude.{◌%◌}
use trace.Proto.Action.{modify-After}
use trace.Prelude.{◌-◌}
use trace.Proto.Fields.{
  slice-some, less-Ready, three_lem, event_fields-After, InBounds, appended-Ready, kept-Ready,
}

module _ {Out : Type 0} (o : Outside Out)
    (short : (p : TracePacket) (bytes : List ℕ)
      → o.encode p ≡ some bytes
      → length bytes < 2 ^ 64) where
  store_template-After :
      (n tid key start : ℕ) (bytes : List ℕ) (x : ProtoExporter Out)
      → length bytes ≤ 64
      → start ≡ length x.template_bytes
      → Ready o short (n + 64) tid x
      → After
          (λ range y. InBounds o short range y × Ready o short n tid y)
          (store_template o key bytes start x)
  unfolding store_template
  store_template-After n tid key start bytes x small here ready =
      let longer = length-append x.template_bytes bytes in
      let room = ready.0.room in
      >>=-After _ _ x
        (λ u y. (length y.template_bytes ≡ start + length bytes) × Ready o short n tid y) _
        (modify-After (appended o bytes) x
          (λ (u : Unit {0}) (y : ProtoExporter Out).
            (length y.template_bytes ≡ start + length bytes) × Ready o short n tid y)
          (omega (arith, longer, here), appended-Ready o short n tid bytes x small ready))
        (λ u y (grown, k).
          >>=-After _ _ y (λ range z. InBounds o short range z × Ready o short n tid z) _
            (gets-After
              (λ (x : ProtoExporter Out).
                (start, (length x.template_bytes % 2 ^ 32 + 2 ^ 32 - start) % 2 ^ 32))
              y (λ range z. InBounds o short range z × Ready o short n tid z)
              (omega (arith, grown, room, small, here), k))
            (λ range z (inside, l).
              >>=-After _ _ z (λ v w. InBounds o short range w × Ready o short n tid w) _
                (modify-After (kept o key range) z _
                  (inside, kept-Ready o short n tid key range z inside l))
                (λ v w m. pure-After range w _ m)))

  bytes_lem :
      (header len event : List ℕ)
      → length header ≤ 13
      → length len ≤ 10
      → length event ≤ 36
      → length (header ++ tag_track_event ∷ len ++ event) ≤ 64
  bytes_lem header len event h k l =
      omega (arith, l, three_lem o short header (tag_track_event ∷ len) event 13 11 h (omega arith))

  start_lem :
      (n tid : ℕ) (x : ProtoExporter Out)
      → Ready o short n tid x
      → length x.template_bytes % 2 ^ 32 ≡ length x.template_bytes
  start_lem n tid x (h, there) = omega (arith, h.room)

  found-After :
      (n tid start : ℕ) (x : ProtoExporter Out)
      → start ≡ length x.template_bytes
      → Ready o short n tid x
      → After
          (λ s y.
            (length s.header ≤ 13) × (start ≡ length y.template_bytes) × Ready o short n tid y)
          (or_panic (find_in tid x.sequences) x)
  found-After n tid start x here (h, (seq, there)) = or_panic-After _ seq x _ there (
    (find_in-All (SeqFits o short) tid x.sequences seq h.sequences there).0,
    here,
    (h, (seq, there)),
  )

  -- A template is new.
  make_template-After :
      (n tid code_id : ℕ) (opens : Bool) (codes : ℕ → Option CodeInfo) (x : ProtoExporter Out)
      → Ready o short (n + 64) tid x
      → After
          (λ range y. InBounds o short range y × Ready o short n tid y)
          (make_template o tid code_id opens codes x)
  unfolding make_template
  make_template-After n tid code_id opens codes x ready =
      >>=-After _ _ x (λ event y. (length event ≤ 36) × Ready o short (n + 64) tid y) _
        (event_fields-After o short (n + 64) tid code_id opens codes x ready)
        (λ event y (short_event, k).
          >>=-After _ _ y
            (λ start z. (start ≡ length z.template_bytes) × Ready o short (n + 64) tid z) _
            (gets-After (λ (x : ProtoExporter Out). length x.template_bytes % 2 ^ 32) y
              (λ start z. (start ≡ length z.template_bytes) × Ready o short (n + 64) tid z)
              (start_lem (n + 64) tid y k, k))
            (λ start z (here, l).
              >>=-After _ _ z
                (λ s w.
                  (length s.header ≤ 13)
                  × (start ≡ length w.template_bytes)
                  × Ready o short (n + 64) tid w)
                _ (found-After (n + 64) tid start z here l)
                (λ s w (short_header, there, m).
                  let (len, f, short_len) = varint_lem (length event) (omega arith) in
                  >>=-After _ _ w
                    (λ b v.
                      (length b ≤ 10)
                      × (start ≡ length v.template_bytes)
                      × Ready o short (n + 64) tid v)
                    _ (or_panic-After _ len w _ f (short_len, there, m))
                    (λ b v (short_b, again, p).
                      store_template-After n tid (template_key tid code_id opens) start
                        (s.header ++ tag_track_event ∷ b ++ event) v
                        (bytes_lem s.header b event short_header short_b short_event) again p))))

  -- The range of a template, new or known.
  pub template-After :
      (n tid code_id : ℕ) (opens : Bool) (codes : ℕ → Option CodeInfo) (x : ProtoExporter Out)
      → Ready o short (n + 64) tid x
      → After
          (λ range y. InBounds o short range y × Ready o short n tid y)
          (template o tid code_id opens codes x)
  unfolding template kept_template
  template-After n tid code_id opens codes x ready =
      known (find_in (template_key tid code_id opens) x.templates) refl
    where
      known :
          (e : Option (ℕ × ℕ))
          → find_in (template_key tid code_id opens) x.templates ≡ e
          → After
              (λ range y. InBounds o short range y × Ready o short n tid y)
              (kept_template o tid code_id opens codes e x)
      known (some range) e = pure-After range x _ (
        find_in-All (λ r. InBounds o short r x) (template_key tid code_id opens) x.templates range
            ready.0.ranges e,
        less-Ready o short (n + 64) n tid x (omega arith) ready,
      )
      known none e = make_template-After n tid code_id opens codes x ready

  pub push_event-After :
      (n tid ts_ns : ℕ) (range : ℕ × ℕ) (x : ProtoExporter Out)
      → ts_ns < 2 ^ 64
      → InBounds o short range x
      → Ready o short n tid x
      → After (λ u y. IsSafe o short n y) (push_event o ts_ns range x)
  unfolding push_event
  push_event-After n tid ts_ns (start, len) x small inside ready =
      let (ts, f, short_ts) = varint_lem ts_ns small in
      let room = ready.0.room in
      >>=-After _ _ x
        (λ t y. (length t ≤ 10) × InBounds o short (start, len) y × Ready o short n tid y) _
        (or_panic-After _ ts x _ f (short_ts, inside, ready))
        (λ t y (short_t, within, k).
          let room_here = k.0.room in
          let (size, g, short_size) =
            varint_lem (1 + length t + len) (omega (arith, short_t, within, room_here)) in
          >>=-After _ _ y (λ b z. InBounds o short (start, len) z × Ready o short n tid z) _
            (or_panic-After _ size y _ g (within, k))
            (λ b z (still, l).
              let room_there = l.0.room in
              let (body, found) =
                slice-some z.template_bytes start ((start + len) % 2 ^ 32)
                  (omega (arith, still, room_there)) (omega (arith, still, room_there)) in
              >>=-After _ _ z (λ c w. Ready o short n tid w) _ (or_panic-After _ body z _ found l)
                (λ c w (m, there).
                  modify-After (pushed o (packet_tag ∷ b ++ tag_timestamp ∷ t ++ c)) w
                    (λ u v. IsSafe o short n v)
                    (record { ranges = m.ranges; sequences = m.sequences; room = m.room }))))
