-- ===== src/Proto/Safety.antt =====
-- What a good state of the exporter of crates/proto/src/lib.rs is, and the operations on packets and
-- sequences in such a state.
use trace.Proto.{ProtoExporter, Sequence, find_in, needs_state_field}
use trace.Proto.Action.{After, pure-After, After-map, or_panic, modify-After}
use trace.Proto.Packet.{TracePacket}
use trace.Proto.Sequences.{Outside, write_out, wrote, write_packet, encoded, code_iid, known_iid}
use trace.Prelude.{All, Bool, List, [], false, length, some, true, ℕ, ◌+◌, ◌<◌, ◌^◌, ◌≡◌, ◌≤◌}
use trace.Prelude.{Option, none, refl}
use trace.Proto.Action.{>>=-After, or_panic-After}
use trace.Prelude.{arith}
use trace.Proto.Sequences.{new_iid, ensure_sequence, known_sequence, new_sequence, sequence_id_of}
use trace.Sink.{CodeInfo}
use trace.Prelude.{All-append, add64, length-append}
use Prim.Native.String.{String}
use trace.Proto.Sequences.{interning, sequence_packet, has_location, track_uuid_of, header_of}
use trace.Proto.Sequences.{learned, added}
use trace.Proto.Entries.{varint_lem, find_in-All, All-update_in, find_in-update_in, find_in-append}

module _ {Out : Type 0} (o : Outside Out)
    (short : (p : TracePacket) (bytes : List ℕ)
      → o.encode p ≡ some bytes
      → length bytes < 2 ^ 64) where
  -- The room for `n` more bytes of templates, and the bounds of what is kept.
  pub record IsSafe (n : ℕ) (x : ProtoExporter Out) : Type 0 where
    pub ranges : All (λ (e : ℕ × (ℕ × ℕ)). e.1.0 + e.1.1 ≤ length x.template_bytes) x.templates
    pub sequences :
        All
          (λ (e : ℕ × Sequence).
            (length e.1.header ≤ 13) × All (λ (k : ℕ × (ℕ × Bool)). k.1.0 < 2 ^ 64) e.1.code_iids)
          x.sequences
    pub room : length x.template_bytes + n < 2 ^ 32

  -- What does not look at the writer.
  abbrev pub IgnoresOut : (ProtoExporter Out → Type 0) → Type 0
  IgnoresOut P = (x : ProtoExporter Out) (out : Out) → P x → P (record x { out = out })

  pub write_out-After :
      (P : ProtoExporter Out → Type 0) (bytes : List ℕ) (x : ProtoExporter Out)
      → IgnoresOut P
      → P x
      → After (λ u y. P y) (write_out o bytes x)
  unfolding write_out wrote After
  write_out-After P bytes x ig h = go (o.write_all bytes x.out)
    where
      go : (r : Bool × Out) → After (λ u y. P y) (wrote o r x)
      go (true, out) = ig x out h
      go (false, out) = tt

  pub write_packet-After :
      (P : ProtoExporter Out → Type 0) (packet : TracePacket) (x : ProtoExporter Out)
      → IgnoresOut P
      → P x
      → After (λ u y. P y) (write_packet o packet x)
  unfolding write_packet encoded After
  write_packet-After P packet x ig h =
      >>=-After _ _ x (λ bytes y. (length bytes < 2 ^ 64) × P y) _
        (encoded_lem (o.encode packet) refl)
        (λ bytes y k.
          let (len, f, _) = varint_lem (length bytes) (k.0) in
          >>=-After _ _ y (λ _ z. P z) _ (or_panic-After _ len y _ f (k.1))
            (λ size z l.
              >>=-After _ _ z (λ _ w. P w) _ (write_out-After P _ z ig l)
                (λ _ w n. write_out-After P bytes w ig n)))
    where
      encoded_lem :
          (e : Option (List ℕ))
          → o.encode packet ≡ e
          → After (λ bytes y. (length bytes < 2 ^ 64) × P y) (encoded o e x)
      encoded_lem none e = tt
      encoded_lem (some bytes) e = (short packet bytes e, h)

  -- The sequence of a thread is there.
  abbrev pub Has : ℕ → ProtoExporter Out → Type 0
  Has tid x = (seq : Sequence) × (find_in tid x.sequences ≡ some seq)

  abbrev pub Ready : ℕ → ℕ → ProtoExporter Out → Type 0
  Ready n tid x = IsSafe n x × Has tid x

  pub IsSafe-IgnoresOut : (n : ℕ) → IgnoresOut (IsSafe n)
  IsSafe-IgnoresOut n x out h = record { ranges = h.ranges; sequences = h.sequences; room = h.room }

  pub Ready-IgnoresOut : (n tid : ℕ) → IgnoresOut (Ready n tid)
  Ready-IgnoresOut n tid x out (h, there) = (IsSafe-IgnoresOut n x out h, there)

  abbrev pub SeqFits : Sequence → Type 0
  SeqFits s = (length s.header ≤ 13) × All (λ (k : ℕ × (ℕ × Bool)). k.1.0 < 2 ^ 64) s.code_iids

  -- The sequence of a thread that has one.
  pub sequence-After :
      (n tid : ℕ) (x : ProtoExporter Out)
      → Ready n tid x
      → After (λ s y. SeqFits s × Ready n tid y) (or_panic (find_in tid x.sequences) x)
  sequence-After n tid x (h, (seq, there)) =
      or_panic-After _ seq x _ there
        (find_in-All SeqFits tid x.sequences seq h.sequences there, (h, (seq, there)))

  -- A sequence takes one more code object.
  learned-Ready :
      (n tid code_id iid : ℕ) (located : Bool) (x : ProtoExporter Out)
      → iid < 2 ^ 64
      → Ready n tid x
      → Ready n tid (learned o tid code_id (iid, located) x)
  learned-Ready n tid code_id iid located x small (h, (seq, there)) = (
    record {
      ranges = h.ranges;
      sequences = All-update_in SeqFits tid _ x.sequences (λ s f. (f.0, (small, f.1))) h.sequences;
      room = h.room;
    },
    (_, find_in-update_in tid _ x.sequences seq there),
  )

  -- A thread's first sequence.
  added-Ready :
      (n tid : ℕ) (seq : Sequence) (x : ProtoExporter Out)
      → IsSafe n x
      → find_in tid x.sequences ≡ none
      → length seq.header ≤ 13
      → seq.code_iids ≡ []
      → Ready n tid (added o tid seq x)
  added-Ready n tid seq x safe absent short_header fresh = (
    record {
      ranges = safe.ranges;
      sequences = All-append _ x.sequences _ safe.sequences ((short_header, rw fresh tt), tt);
      room = safe.room;
    },
    (seq, find_in-append tid x.sequences seq absent),
  )

  abbrev new_one : ℕ → List ℕ → Sequence
  new_one id bytes = record { id = id; header = header_of o bytes; code_iids = [] }

  -- The id of a code object, which fits a `u64`.
  pub code_iid-After :
      (n tid code_id : ℕ) (codes : ℕ → Option CodeInfo) (x : ProtoExporter Out)
      → Ready n tid x
      → After (λ e y. (e.0 < 2 ^ 64) × Ready n tid y) (code_iid o tid code_id codes x)
  unfolding code_iid known_iid new_iid
  code_iid-After n tid code_id codes x ready =
      >>=-After _ _ x (λ s y. SeqFits s × Ready n tid y) _ (sequence-After n tid x ready)
        (λ s y (fits, k). known s y (find_in code_id s.code_iids) refl fits k)
    where
      known :
          (s : Sequence) (y : ProtoExporter Out) (e : Option (ℕ × Bool))
          → find_in code_id s.code_iids ≡ e
          → SeqFits s
          → Ready n tid y
          → After
              (λ e y. (e.0 < 2 ^ 64) × Ready n tid y)
              (known_iid o tid code_id (codes code_id) s e y)
      known s y (some entry) e fits ready =
          pure-After entry y _ (
            find_in-All (λ (k : ℕ × Bool). k.0 < 2 ^ 64) code_id s.code_iids entry (fits.1) e,
            ready,
          )
      known s y none e fits ready =
          let iid : ℕ = add64 (length s.code_iids) 1 in
          >>=-After _ _ y (λ u z. Ready n tid z) _
            (write_packet-After (Ready n tid) (interning o iid s.id (codes code_id)) y
              (Ready-IgnoresOut n tid) ready)
            (λ u z k.
              >>=-After _ _ z (λ u w. Ready n tid w) _
                (After-map _ _ _ (λ s w l. l.1) (sequence-After n tid z k))
                (λ u w l.
                  >>=-After _ _ w (λ u v. Ready n tid v) _
                    (modify-After (learned o tid code_id (iid, has_location o (codes code_id))) w
                      (λ u v. Ready n tid v)
                      (learned-Ready n tid code_id iid (has_location o (codes code_id)) w
                        (omega arith) l))
                    (λ u v r. pure-After _ v _ (omega arith, r))))

  -- `ensure_sequence` leaves a sequence for the thread.
  pub ensure_sequence-After :
      (n tid : ℕ) (name : Option String) (x : ProtoExporter Out)
      → IsSafe n x
      → After (λ u y. Ready n tid y) (ensure_sequence o tid name x)
  unfolding ensure_sequence known_sequence new_sequence
  ensure_sequence-After n tid name x h = known (find_in tid x.sequences) refl
    where
      known :
          (e : Option Sequence)
          → find_in tid x.sequences ≡ e
          → After (λ u y. Ready n tid y) (known_sequence o tid name e x)
      known (some seq) e = pure-After tt x _ (h, (seq, e))
      known none e =
          let id : ℕ = sequence_id_of o x.slot (length x.sequences) in
          let (bytes, f, bound) = varint_lem id (omega arith) in
          let P : ProtoExporter Out → Type 0 = λ y. IsSafe n y × (find_in tid y.sequences ≡ none) in
          >>=-After _ _ x (λ b y. (length b ≤ 10) × P y) _
            (or_panic-After _ bytes x _ f (bound, (h, e)))
            (λ b y k.
              >>=-After _ _ y (λ u z. P z) _
                (write_packet-After P
                  (sequence_packet o id (track_uuid_of o x.process_uuid (length x.sequences)) tid
                    name x)
                  y (λ z out l. (IsSafe-IgnoresOut n z out (l.0), l.1)) (k.1))
                (λ u z (safe, absent).
                  modify-After (added o tid (new_one id b)) z (λ u w. Ready n tid w)
                    (added-Ready n tid (new_one id b) z safe absent
                      (omega (arith, k.0, length-append b needs_state_field)) refl)))
