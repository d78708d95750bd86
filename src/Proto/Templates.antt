-- ===== src/Proto/Templates.antt =====
-- Templates of crates/proto/src/lib.rs: the bytes of an event behind its time. Those of a thread, a code
-- object and a direction are made once.
use trace.Sink.{CodeInfo}
use trace.Varint.{varint}
use trace.Proto.{
  ProtoExporter, find_in, packet_tag, tag_timestamp, tag_track_event, tag_type, tag_category_iids,
  tag_name_iid, tag_source_location_iid, category_iid,
}
use trace.Proto.Action.{pure, gets, or_panic, modify, ◌>>=◌, ◌>>◌}
use trace.Proto.Packet.{slice_begin, slice_end}
use trace.Proto.Sequences.{Outside, Exporting, code_iid}
use trace.Prelude.{
  Bool, List, Option, [], bit_or, drop, false, if◌then◌else◌, leb, length, none, some, take, true,
  ℕ, ◌%◌, ◌&&◌, ◌*◌, ◌++◌, ◌+◌, ◌-◌, ◌^◌, ◌∷◌,
}

-- `((tid as u64) << 32) | ((keyed_code as u64) << 1) | opens as u64`
unfoldable pub template_key : ℕ → ℕ → Bool → ℕ
template_key tid code_id opens =
    let keyed_code = if opens then code_id else 0 in
    bit_or (bit_or (tid * 2 ^ 32 % 2 ^ 64) (keyed_code * 2 % 2 ^ 64)) (if opens then 1 else 0)

-- `&bytes[start..end]`, which panics where the ends are not in order or not inside.
abbrev pub slice : List ℕ → ℕ → ℕ → Option (List ℕ)
slice bytes start end =
    if leb start end && leb end (length bytes)
    then some (take (end - start) (drop start bytes))
    else none

module _ {Out : Type 0} (o : Outside Out) where
  -- The fields of an event that opens a slice, by the id of its code object.
  abbrev pub opening : List ℕ → List ℕ → Bool → List ℕ
  opening category iid located =
      tag_category_iids ∷ category
      ++ tag_name_iid ∷ iid
      ++ (if located then tag_source_location_iid ++ iid else [])

  unfoldable pub event_fields : ℕ → ℕ → Bool → (ℕ → Option CodeInfo) → Exporting o (List ℕ)
  event_fields tid code_id true codes = do
    entry ← code_iid o tid code_id codes
    category ← or_panic (varint category_iid)
    iid ← or_panic (varint (entry.0))
    pure (tag_type ∷ slice_begin ∷ opening category iid (entry.1))
  event_fields tid code_id false codes = pure (tag_type ∷ slice_end ∷ [])

  abbrev pub appended : List ℕ → ProtoExporter Out → ProtoExporter Out
  appended bytes x = record x { template_bytes = x.template_bytes ++ bytes }

  abbrev pub kept : ℕ → ℕ × ℕ → ProtoExporter Out → ProtoExporter Out
  kept key range x = record x { templates = (key, range) ∷ x.templates }

  -- The bytes of a template go behind those of the others, and their range under its key.
  unfoldable pub store_template : ℕ → List ℕ → ℕ → Exporting o (ℕ × ℕ)
  store_template key bytes start = do
    modify (appended bytes)
    range ← gets (λ (x : ProtoExporter Out).
        (start, (length x.template_bytes % 2 ^ 32 + 2 ^ 32 - start) % 2 ^ 32))
    modify (kept key range)
    pure range

  unfoldable pub make_template : ℕ → ℕ → Bool → (ℕ → Option CodeInfo) → Exporting o (ℕ × ℕ)
  unfolding event_fields store_template
  make_template tid code_id opens codes = do
    event ← event_fields tid code_id opens codes
    start ← gets (λ (x : ProtoExporter Out). length x.template_bytes % 2 ^ 32)
    seq ← (λ (x : ProtoExporter Out). or_panic (find_in tid x.sequences) x)
    len ← or_panic (varint (length event))
    store_template (template_key tid code_id opens) (seq.header ++ tag_track_event ∷ len ++ event)
        start

  unfoldable pub kept_template :
      ℕ → ℕ → Bool → (ℕ → Option CodeInfo) → Option (ℕ × ℕ) → Exporting o (ℕ × ℕ)
  unfolding make_template
  kept_template tid code_id opens codes (some range) = pure range
  kept_template tid code_id opens codes none = make_template tid code_id opens codes

  unfoldable pub template : ℕ → ℕ → Bool → (ℕ → Option CodeInfo) → Exporting o (ℕ × ℕ)
  unfolding kept_template
  template tid code_id opens codes x =
      kept_template tid code_id opens codes (find_in (template_key tid code_id opens) x.templates) x

  abbrev pub pushed : List ℕ → ProtoExporter Out → ProtoExporter Out
  pushed bytes x = record x { buf = x.buf ++ bytes }

  unfoldable pub push_event : ℕ → ℕ × ℕ → Exporting o (Unit {0})
  push_event ts_ns (start, len) = do
    ts ← or_panic (varint ts_ns)
    size ← or_panic (varint (1 + length ts + len))
    body ← (λ (x : ProtoExporter Out).
        or_panic (slice x.template_bytes start ((start + len) % 2 ^ 32)) x)
    modify (pushed (packet_tag ∷ size ++ tag_timestamp ∷ ts ++ body))
