-- ===== src/Pprof/Profile/Table.antt =====
-- The string table of crates/pprof/src/lib.rs.
use Prim.Native.String.{String}
use text.Mathlib.TextEquality.{eq_iff}
use trace.Prelude.{
  ℕ, ◌≡◌, refl, ◌<◌, List, [], ◌∷◌, ◌++◌, some, get_elem?, length, All, get_elem?-append_lt,
  get_elem?-append_length, get_elem?-lt, Option-cases, Bool-cases, inl, inr, ◌∙◌,
}
use trace.Sink.{same_text}
use trace.Pprof.Profile.{Strings, id, find_text}
use trace.Prelude.{some-injective, sym, ap}

-- What the index says of a text is its place in the table.
abbrev pub IsIndexed : List String → List (String × ℕ) → Type 0
IsIndexed table index = All (λ (e : String × ℕ). get_elem? table (e.1) ≡ some (e.0)) index

find_text_lem :
    (table : List String) (text : String) (index : List (String × ℕ)) (i : ℕ)
    → IsIndexed table index
    → find_text text index ≡ some i
    → get_elem? table i ≡ some text
find_text_lem table text [] i v e = cc
find_text_lem table text ((known, j) ∷ index) i v e = elim (Bool-cases (same_text known text)) [
  | inl same ↦
      let q : j ≡ i = some-injective _ _ (rw same at e) in
      rw (sym q) (v.0 ∙ ap some ((eq_iff known text).0 same))
  | inr apart ↦ find_text_lem table text index i (v.1) (rw apart at e)
]

IsIndexed-append :
    (table more : List String) (index : List (String × ℕ))
    → IsIndexed table index
    → IsIndexed (table ++ more) index
IsIndexed-append table more [] v = tt
IsIndexed-append table more ((text, i) ∷ index) v = (
  get_elem?-append_lt table more i (get_elem?-lt table i (v.0)) ∙ v.0,
  IsIndexed-append table more index (v.1),
)

-- The `id` of a text is a place of the table where the text stands, and every text keeps its place.
pub id-IsIndexed :
    (text : String) (s : Strings)
    → IsIndexed s.table s.index
    → let (i, t) = id text s in
      IsIndexed t.table t.index
      × (get_elem? t.table i ≡ some text)
      × ((j : ℕ) → j < length s.table → get_elem? t.table j ≡ get_elem? s.table j)
unfolding id
id-IsIndexed text s v = elim (Option-cases (find_text text s.index)) [
  | inr (i, e) ↦ rw e (v, find_text_lem s.table text s.index i v e, λ j h. refl)
  | inl absent ↦
      let here = get_elem?-append_length s.table [] text in
      rw absent (
        (here, IsIndexed-append s.table (text ∷ []) s.index v),
        here,
        λ j h. get_elem?-append_lt s.table (text ∷ []) j h,
      )
]
