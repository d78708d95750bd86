-- ===== src/Format.antt =====
-- crates/py/src/format.rs: the names of the formats, and the file that each writes.
use Prim.Native.String.{String}
use trace.Sink.{same_text}
use trace.Prelude.{if◌then◌else◌, refl, ◌||◌, ◌≡◌}
use trace.Prelude.{Bool, false, true, ℕ}

pub data Format : Type 0 where
  json : Format
  protobuf : Format
  pprof : Format

-- An error is the text that is no format.
pub data Parsed : Type 0 where
  known : Format → Parsed
  unknown : String → Parsed

unfoldable pub parse : String → Parsed
parse s =
    if same_text s "json"
    then known json
    else if same_text s "protobuf" || same_text s "proto" || same_text s "pb"
    then known protobuf
    else if same_text s "pprof"
    then known pprof
    else unknown s

unfoldable pub as_str : Format → String
as_str json = "json"
as_str protobuf = "protobuf"
as_str pprof = "pprof"

-- The name of every format parses as that format.
pub parse-as_str : (f : Format) → parse (as_str f) ≡ known f
unfolding parse as_str
parse-as_str json = refl
parse-as_str protobuf = refl
parse-as_str pprof = refl

-- The exporter that `open` makes, of which the files are outside the model: its kind, its path, whether
-- it appends, and the slot of a protobuf exporter.
pub data Exporter : Type 0 where
  json_file : String → Bool → Exporter
  proto_file : String → Bool → ℕ → Exporter
  pprof_file : String → Exporter

-- `path_of_slot` is the text `{path}.{slot}`.
unfoldable pub open_exporter : (String → ℕ → String) → Format → String → ℕ → Bool → Exporter
open_exporter path_of_slot json path slot append = json_file path append
open_exporter path_of_slot protobuf path slot append = proto_file path append slot
open_exporter path_of_slot pprof path slot false = pprof_file path
open_exporter path_of_slot pprof path slot true = pprof_file (path_of_slot path slot)
