-- ===== src/Sink.antt =====
-- crates/core/src/sink.rs: what is known of a code object, and a table of it.
pub mod Threads
use Prim.Native.String.{String}
use text.Mathlib.Text.{◌==◌}
use trace.Prelude.{ℕ, ◌-◌, ◌%◌, ◌^◌, Option, List, [], ◌∷◌, ◌++◌, Bool}
use trace.Prelude.{length, get_elem?}

pub record CodeInfo : Type 0 where
  pub qualname : String
  pub filename : String
  pub firstlineno : ℕ

-- `CodeInfo::default()`
abbrev pub default_info : CodeInfo
default_info = record { qualname = ""; filename = ""; firstlineno = 0 }

pub record CodeTable : Type 0 where
  pub info : List CodeInfo

-- `CodeTable::push`, with the id it gives.
unfoldable pub push : CodeInfo → CodeTable → ℕ × CodeTable
push info t =
    let grown = t.info ++ info ∷ [] in ((length grown - 1) % 2 ^ 32, record { info = grown })

unfoldable pub push_named : String → CodeTable → ℕ × CodeTable
push_named qualname t = push (record default_info { qualname = qualname }) t

unfoldable pub code : ℕ → CodeTable → Option CodeInfo
code id t = get_elem? t.info id

-- Equality of `String`s.
abbrev pub same_text : String → String → Bool
same_text s t = s == t
