-- ===== src/Proto.antt =====
-- crates/proto/src/lib.rs: the exporter of Perfetto traces. Events are put together byte by byte from
-- templates; the other packets are messages, which the third-party crate `prost` encodes.
pub mod Action
pub mod Packet
pub mod Sequences
pub mod Templates
pub mod Batches
pub mod Entries
pub mod Safety
pub mod Fields
pub mod Panics
pub mod Exports
pub mod Frames
use trace.Prelude.{
  Bool, List, Option, [], bit_or, false, if◌then◌else◌, none, some, ℕ, ◌%◌, ◌*◌, ◌+◌, ◌/◌, ◌==◌,
  ◌^◌, ◌∷◌,
}

-- `PACKET_TAG`
abbrev pub packet_tag : ℕ
packet_tag = 1 * 2 ^ 3 + 2

abbrev pub process_sequence : ℕ
process_sequence = 1

abbrev pub sequences_per_slot : ℕ
sequences_per_slot = 128

abbrev pub category_iid : ℕ
category_iid = 1

abbrev pub incremental_state_cleared : ℕ
incremental_state_cleared = 1

abbrev pub needs_incremental_state : ℕ
needs_incremental_state = 2

-- The module `tag`: a field number and a wire type.
abbrev pub tag_timestamp : ℕ
tag_timestamp = 8 * 2 ^ 3

abbrev pub tag_track_event : ℕ
tag_track_event = 11 * 2 ^ 3 + 2

abbrev pub tag_type : ℕ
tag_type = 9 * 2 ^ 3

abbrev pub tag_category_iids : ℕ
tag_category_iids = 3 * 2 ^ 3

abbrev pub tag_name_iid : ℕ
tag_name_iid = 10 * 2 ^ 3

abbrev pub tag_sequence_flags : ℕ
tag_sequence_flags = 13 * 2 ^ 3

abbrev pub tag_sequence_id : ℕ
tag_sequence_id = 10 * 2 ^ 3

-- The two bytes of a tag that is larger than 127.
abbrev pub tag_source_location_iid : List ℕ
tag_source_location_iid = (34 * 2 ^ 3 % 128 + 128) ∷ (34 * 2 ^ 3 / 128) ∷ []

abbrev pub needs_state_field : List ℕ
needs_state_field = tag_sequence_flags ∷ needs_incremental_state ∷ []

-- `code_iids` gives the id within the sequence, and whether the code object has a location.
pub record Sequence : Type 0 where
  pub id : ℕ
  pub header : List ℕ
  pub code_iids : List (ℕ × (ℕ × Bool))

-- `ProtoExporter`. A hash map is a list of pairs; `pid` is the bits of an `i32`.
pub record ProtoExporter (Out : Type 0) : Type 0 where
  pub out : Out
  pub buf : List ℕ
  pub templates : List (ℕ × (ℕ × ℕ))
  pub template_bytes : List ℕ
  pub sequences : List (ℕ × Sequence)
  pub process_emitted : Bool
  pub pid : ℕ
  pub process_uuid : ℕ
  pub slot : ℕ

-- `((pid as u32 as u64) << 32) | 1`
unfoldable pub process_uuid_of : ℕ → ℕ
process_uuid_of pid = bit_or (pid * 2 ^ 32 % 2 ^ 64) 1

-- `own_pid` is the id of this process.
unfoldable pub new : {Out : Type 0} → Out → ℕ → ProtoExporter Out
unfolding process_uuid_of
new out own_pid = record {
  out = out;
  buf = [];
  templates = [];
  template_bytes = [];
  sequences = [];
  process_emitted = false;
  pid = own_pid;
  process_uuid = process_uuid_of own_pid;
  slot = 0;
}

unfoldable pub with_pid : {Out : Type 0} → ℕ → ProtoExporter Out → ProtoExporter Out
with_pid pid x = record x { pid = pid; process_uuid = process_uuid_of pid }

unfoldable pub with_slot : {Out : Type 0} → ℕ → ProtoExporter Out → ProtoExporter Out
with_slot slot x = record x { slot = slot }

-- An entry of a hash map.
abbrev pub find_in : {A : Type 0} → ℕ → List (ℕ × A) → Option A
find_in key [] = none
find_in key ((k, a) ∷ entries) = if k == key then some a else find_in key entries

-- A change of the entry of a key, which has one.
abbrev pub update_in : {A : Type 0} → ℕ → (A → A) → List (ℕ × A) → List (ℕ × A)
update_in key f [] = []
update_in key f ((k, a) ∷ entries) =
    if k == key then (k, f a) ∷ entries else (k, a) ∷ update_in key f entries

unfoldable pub process_sequence_id : ℕ → ℕ
process_sequence_id slot = (slot * sequences_per_slot + process_sequence) % 2 ^ 32
