-- ===== src/Cli.antt =====
-- crates/py/src/cli.rs: what is run, and the `sys.argv` that it sees. The parser of the command line is
-- the third-party crate `clap`.
use Prim.Native.String.{String}
use trace.Prelude.{List, Option, [], ap, none, none-ne-some, some, some-injective, sym, ◌∷◌, ◌≡◌}

pub data Target : Type 0 where
  script_at : String → Target
  module_named : String → Target

-- `split_target`, and `none` where neither a module nor a script is given, on which it panics.
unfoldable pub split_target :
    List String → Option String → List String → Option (Target × List String × String)
split_target modules (some script) script_args = some (script_at script, script_args, script)
split_target [] none script_args = none
split_target (name ∷ rest) none script_args = some (module_named name, rest, name)

-- `argv_items` of `run`.
unfoldable pub argv_items : Target × List String × String → List String
argv_items (target, args, argv0) = argv0 ∷ args

-- A module sees the arguments behind `-m` as they are, its name first, and a script its own path and
-- then the arguments behind it.
split_target-argv :
    (modules script_args : List String) (script : Option String)
    (split : Target × List String × String)
    → split_target modules script script_args ≡ some split
    → argv_items split ≡ elim script [ none ↦ modules | some path ↦ path ∷ script_args ]
unfolding split_target argv_items
split_target-argv modules script_args (some path) split e =
    ap argv_items (sym (some-injective _ _ e))
split_target-argv [] script_args none split e = absurd (none-ne-some split e)
split_target-argv (name ∷ rest) script_args none split e =
    ap argv_items (sym (some-injective _ _ e))
