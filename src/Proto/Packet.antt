-- ===== src/Proto/Packet.antt =====
-- The messages of the module `pb` that crates/proto/src/lib.rs makes, with the fields that it sets.
use Prim.Native.String.{String}
use trace.Prelude.{List, Option, ℕ}

pub record SourceLocation : Type 0 where
  pub iid : ℕ
  pub file_name : String
  pub line_number : ℕ

-- A name or a category is its id and its text.
pub record InternedData : Type 0 where
  pub event_categories : List (ℕ × String)
  pub event_names : List (ℕ × String)
  pub source_locations : List SourceLocation

-- The process has a pid and a name; the thread a pid, a tid and maybe a name.
pub record TrackDescriptor : Type 0 where
  pub uuid : ℕ
  pub parent_uuid : Option ℕ
  pub name : Option String
  pub process : Option (ℕ × String)
  pub thread : Option (ℕ × ℕ × Option String)

pub record TrackEvent : Type 0 where
  pub kind : ℕ
  pub track_uuid : ℕ
  pub name : String
  pub categories : List String

pub data Data : Type 0 where
  track_descriptor : TrackDescriptor → Data
  track_event : TrackEvent → Data

-- `defaults` is the uuid of the track that the sequence's events are of.
pub record TracePacket : Type 0 where
  pub timestamp : ℕ
  pub sequence_id : ℕ
  pub sequence_flags : Option ℕ
  pub defaults : Option ℕ
  pub interned_data : Option InternedData
  pub data_of : Option Data

-- The values of `pb::track_event::Type`.
abbrev pub slice_begin : ℕ
slice_begin = 1

abbrev pub slice_end : ℕ
slice_end = 2

abbrev pub instant : ℕ
instant = 3
