-- ===== src/Pprof/Profile.antt =====
-- `finish` of crates/pprof/src/lib.rs up to the encoding: the tables of the profile.
-- The records have the fields of the messages that `finish` sets; a string is its place in the table.
pub mod Table
use Prim.Native.String.{String}
use trace.Prelude.{
  ℕ, ◌+◌, ◌%◌, ◌^◌, Bool, Option, none, some, List, [], ◌∷◌, ◌++◌, map, ltb, ◌==◌, if◌then◌else◌,
  length,
}
use trace.Sink.{CodeInfo, default_info, same_text}
use trace.Pprof.{PprofExporter}

pub record Strings : Type 0 where
  pub table : List String
  pub index : List (String × ℕ)

abbrev pub find_text : String → List (String × ℕ) → Option ℕ
find_text text [] = none
find_text text ((known, i) ∷ index) = if same_text known text then some i else find_text text index

-- The `id` of a text that the index has, or has not.
id_of : String → Strings → Option ℕ → ℕ × Strings
id_of text s (some i) = (i, s)
id_of text s none =
    let i = length s.table in
    (i, record { table = s.table ++ text ∷ []; index = (text, i) ∷ s.index })

unfoldable pub id : String → Strings → ℕ × Strings
unfolding id_of
id text s = id_of text s (find_text text s.index)

unfoldable pub with_empty_head : Strings
with_empty_head = (id "" (record { table = []; index = [] })).1

-- A `u32` and one fit a `u64`.
abbrev pub location_id : ℕ → ℕ
location_id code_id = code_id + 1

pub record Function : Type 0 where
  pub id : ℕ
  pub name : ℕ
  pub system_name : ℕ
  pub filename : ℕ
  pub start_line : ℕ

-- A location has one line, of its function; the column is 0.
pub record Location : Type 0 where
  pub id : ℕ
  pub function_id : ℕ
  pub line : ℕ

pub record Sample : Type 0 where
  pub location_id : List ℕ
  pub value : ℕ

pub record Profile : Type 0 where
  pub sample_type : ℕ × ℕ
  pub function : List Function
  pub location : List Location
  pub sample : List Sample
  pub comment : List ℕ
  pub string_table : List String

-- A `BTreeSet` is a list that rises.
abbrev pub use_id : ℕ → List ℕ → List ℕ
use_id c [] = c ∷ []
use_id c (d ∷ used) =
    if c == d then d ∷ used else if ltb c d then c ∷ d ∷ used else d ∷ use_id c used

abbrev pub use_stack : List ℕ → List ℕ → List ℕ
use_stack [] used = used
use_stack (c ∷ stack) used = use_stack stack (use_id c used)

unfoldable pub used_from : List (List ℕ × ℕ) → List ℕ → List ℕ
used_from [] used = used
used_from ((stack, _) ∷ self_ns) used = used_from self_ns (use_stack stack used)

abbrev pub name_of : CodeInfo → String
name_of info = if same_text info.qualname "" then "<unknown>" else info.qualname

abbrev pub info_of : Option CodeInfo → CodeInfo
info_of none = default_info
info_of (some info) = info

-- The loop over `used`: the functions, the locations, and the strings behind it.
unfoldable pub describe :
    (ℕ → Option CodeInfo) → List ℕ → Strings → List Function × List Location × Strings
describe codes [] s = ([], [], s)
describe codes (c ∷ used) s =
    let info = info_of (codes c) in
    let (name, t) = id (name_of info) s in
    let (filename, u) = id info.filename t in
    let (functions, locations, v) = describe codes used u in
    (
      record {
        id = location_id c;
        name = name;
        system_name = name;
        filename = filename;
        start_line = info.firstlineno;
      }
          ∷ functions,
      record { id = location_id c; function_id = location_id c; line = info.firstlineno }
          ∷ locations,
      v,
    )

abbrev pub innermost_first : List ℕ → List ℕ
innermost_first [] = []
innermost_first (c ∷ stack) = innermost_first stack ++ c ∷ []

abbrev pub sample_of : List ℕ × ℕ → Sample
sample_of (stack, ns) = record { location_id = map location_id (innermost_first stack); value = ns }

-- `comment` is the text that `format!` makes of the count of dropped events.
unfoldable pub finish : (ℕ → Option CodeInfo) → ℕ → String → PprofExporter → Profile × PprofExporter
finish codes dropped comment x =
    let (wall, s) = id "wall" with_empty_head in
    let (nanoseconds, t) = id "nanoseconds" s in
    let (functions, locations, u) = describe codes (used_from x.self_ns []) t in
    let (note, v) = id comment u in
    (
      record {
        sample_type = (wall, nanoseconds);
        function = functions;
        location = locations;
        sample = map sample_of x.self_ns;
        comment = if ltb 0 dropped then note ∷ [] else [];
        string_table = if ltb 0 dropped then v.table else u.table;
      },
      record x { self_ns = [] },
    )
