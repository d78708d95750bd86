-- ===== src/Proto/Frames.antt =====
-- The bytes of an event, and the keys of the templates, of crates/proto/src/lib.rs.
use trace.Prelude.{
  Bool, List, arith, bit_or, drop, false, if◌then◌else◌, length, refl, some, sym, take, true, ℕ,
  ◌%◌, ◌*◌, ◌++◌, ◌+◌, ◌<◌, ◌^◌, ◌∙◌, ◌∷◌, ◌≡◌, ◌≤◌,
}
use trace.Proto.Sequences.{Outside}
use trace.Proto.Templates.{template_key, push_event, pushed, slice}
use trace.Proto.{ProtoExporter, tag_timestamp, packet_tag}
use trace.Prelude.Bits.{or-shift}
use trace.Proto.Action.{done, >>=-done, or_panic-some}
use trace.Varint.{varint}
use trace.Proto.Entries.{varint_lem}
use trace.Prelude.{ap, append_assoc, leb, length-append, ◌&&◌, ◌-◌}
use trace.Prelude.{length-drop, length-take}

-- A thread's id fits a `u32` and a code object's 24 bits, as in an event.
template_key_sum :
    (tid code_id : ℕ) (opens : Bool)
    → tid < 2 ^ 32
    → code_id < 2 ^ 24
    → template_key tid code_id opens
      ≡ (tid * 2 ^ 31 + (if opens then code_id else 0)) * 2 + (if opens then 1 else 0)
unfolding template_key
template_key_sum tid code_id true h k =
    let q : tid * 2 ^ 32 % 2 ^ 64 ≡ tid * 2 ^ 32 = omega arith in
    let r : code_id * 2 % 2 ^ 64 ≡ code_id * 2 = omega arith in
    let s : bit_or (tid * 2 ^ 32) (code_id * 2) ≡ tid * 2 ^ 32 + code_id * 2 =
      or-shift 32 tid (code_id * 2) (omega arith) in
    let shift : tid * 2 ^ 32 + code_id * 2 ≡ (tid * 2 ^ 31 + code_id) * 2 ^ 1 = omega arith in
    let t : bit_or ((tid * 2 ^ 31 + code_id) * 2 ^ 1) 1 ≡ (tid * 2 ^ 31 + code_id) * 2 ^ 1 + 1 =
      or-shift 1 (tid * 2 ^ 31 + code_id) 1 (omega arith) in
    rw (q, r, s, shift) (t ∙ omega arith)
template_key_sum tid code_id false h k =
    let q : tid * 2 ^ 32 % 2 ^ 64 ≡ tid * 2 ^ 32 = omega arith in
    let s : bit_or (tid * 2 ^ 32) 0 ≡ tid * 2 ^ 32 + 0 = or-shift 32 tid 0 (omega arith) in
    let shift : tid * 2 ^ 32 + 0 ≡ (tid * 2 ^ 31 + 0) * 2 ^ 1 = omega arith in
    let t : bit_or ((tid * 2 ^ 31 + 0) * 2 ^ 1) 0 ≡ (tid * 2 ^ 31 + 0) * 2 ^ 1 + 0 =
      or-shift 1 (tid * 2 ^ 31 + 0) 0 (omega arith) in
    rw (q, s, shift) (t ∙ omega arith)

-- Templates with the same key are the same: they are of one thread and one direction, and if they
-- open a slice, of one code object.
pub template_key-injective :
    (tid tid' code_id code_id' : ℕ) (opens opens' : Bool)
    → tid < 2 ^ 32
    → tid' < 2 ^ 32
    → code_id < 2 ^ 24
    → code_id' < 2 ^ 24
    → template_key tid code_id opens ≡ template_key tid' code_id' opens'
    → (tid ≡ tid') × (opens ≡ opens') × (opens ≡ true → code_id ≡ code_id')
template_key-injective tid tid' code_id code_id' opens opens' h h' k k' e =
    go opens opens' (
      sym (template_key_sum tid code_id opens h k)
      ∙ e
      ∙ template_key_sum tid' code_id' opens' h' k')
  where
    go :
        (a b : Bool)
        → (tid * 2 ^ 31 + (if a then code_id else 0)) * 2 + (if a then 1 else 0)
          ≡ (tid' * 2 ^ 31 + (if b then code_id' else 0)) * 2 + (if b then 1 else 0)
        → (tid ≡ tid') × (a ≡ b) × (a ≡ true → code_id ≡ code_id')
    go true true e = (omega (arith, e, h, h', k, k'), refl, λ _. omega (arith, e, h, h', k, k'))
    go true false e = absurd (omega (arith, e))
    go false true e = absurd (omega (arith, e))
    go false false e = (omega (arith, e), refl, λ q. cc)

payload_lem :
    (ts body : List ℕ) (len : ℕ)
    → length body ≡ len
    → length (tag_timestamp ∷ ts ++ body) ≡ 1 + length ts + len
payload_lem ts body len e = omega (arith, e, length-append ts body)

slice_lem :
    (bytes : List ℕ) (start len : ℕ)
    → start + len ≤ length bytes
    → length bytes < 2 ^ 32
    → slice bytes start ((start + len) % 2 ^ 32) ≡ some (take len (drop start bytes))
slice_lem bytes start len h k =
    let end : (start + len) % 2 ^ 32 ≡ start + len = omega arith in
    let inside : (leb start (start + len) && leb (start + len) (length bytes)) ≡ true =
      ground arith in
    let size : (start + len) - start ≡ len = omega arith in rw (end, inside, size) refl

module _ {Out : Type 0} (o : Outside Out) where
  -- The event's payload: its time, and the bytes of its template.
  abbrev pub payload : List ℕ → ℕ × ℕ → ProtoExporter Out → List ℕ
  payload ts (start, len) x = tag_timestamp ∷ ts ++ take len (drop start x.template_bytes)

  -- Given a time that fits a `u64` and a template within template bytes of less than `2 ^ 32`,
  -- `push_event` succeeds and puts one packet behind the buffer: the tag, the varint of the length of
  -- the payload, and the payload, which is the time's tag and varint and the bytes of the template.
  pub push_event-framed :
      (ts_ns : ℕ) (range : ℕ × ℕ) (x : ProtoExporter Out)
      → ts_ns < 2 ^ 64
      → range.0 + range.1 ≤ length x.template_bytes
      → length x.template_bytes < 2 ^ 32
      → (ts size : List ℕ) × (varint ts_ns ≡ some ts)
        × (varint (length (payload ts range x)) ≡ some size)
        × (push_event o ts_ns range x
            ≡ (done tt, pushed o (packet_tag ∷ size ++ payload ts range x) x))
  unfolding push_event
  push_event-framed ts_ns (start, len) x small inside room =
      let (ts, f, short_ts) = varint_lem ts_ns small in
      let (size, g, short_size) = varint_lem (1 + length ts + len) (omega arith) in
      let body : List ℕ = take len (drop start x.template_bytes) in
      let cut : slice x.template_bytes start ((start + len) % 2 ^ 32) ≡ some body =
        slice_lem x.template_bytes start len inside room in
      let e : length (payload ts (start, len) x) ≡ 1 + length ts + len = payload_lem ts body len (
        omega (
          arith,
          length-take len (drop start x.template_bytes),
          length-drop start x.template_bytes,
        )) in
      (
        ts,
        size,
        f,
        rw e g,
        >>=-done _ _ x ts x (or_panic-some (varint ts_ns) ts x f)
            ∙ >>=-done _ _ x size x (or_panic-some (varint (1 + length ts + len)) size x g)
            ∙ >>=-done _ _ x body x
                (or_panic-some (slice x.template_bytes start ((start + len) % 2 ^ 32)) body x cut)
            ∙ ap (λ bytes. (done tt, pushed o bytes x))
                (append_assoc (packet_tag ∷ size) (tag_timestamp ∷ ts) body),
      )
