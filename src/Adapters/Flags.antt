-- ===== src/Adapters/Flags.antt =====
-- `Source` of contrib/sources/flags/flags.go.
pub mod Laws
use xconf.Prelude.{
  ℕ, Bool, true, false, not, ◌==◌, Option, none, some, List, [], ◌∷◌, is_some, if◌then◌else◌,
}
use xconf.Text.{Str, str, has_prefix}
use xconf.Text.Dict.{Dict, lookup, insert}
use xconf.Pointer.{FieldPath}
use xconf.Error.{Error, Result, ok, err, ◌>>=◌, fault, positional, unknown_flag, missing_value}
use xconf.Layer.{Layer}
use xconf.Adapters.Env

pub record Source : Type 0 where
  pub args : List Str
  pub bindings : Dict FieldPath

-- strings.Cut(s, "="): what stands before and after the first `=`, and none of the latter without one.
unfoldable pub cut : Str → Str × Option Str
cut [] = ([], none)
cut (c ∷ s) = let rest = cut s in if c == b'=' then ([], some s) else (c ∷ rest.0, rest.1)

-- strings.TrimPrefix(arg, "--"), where the prefix is there.
unfoldable pub drop_dashes : Str → Str
drop_dashes (a ∷ b ∷ s) = s
drop_dashes s = s

abbrev pub is_flag : Str → Bool
is_flag arg = has_prefix arg (str "--")

-- The tests of an argument: the name of a bound flag, and its value if the argument holds one.
unfoldable pub flag_of : Dict FieldPath → Str → Result (Str × Option Str)
unfolding has_prefix cut drop_dashes lookup
flag_of bindings arg =
    if not (is_flag arg)
    then err (fault positional)
    else if not (is_some (lookup (cut (drop_dashes arg)).0 bindings))
    then err (fault (unknown_flag (cut (drop_dashes arg)).0))
    else ok (cut (drop_dashes arg))

-- The loop over the arguments. One that holds no value takes the next one.
unfoldable pub parse : Dict FieldPath → List Str → Dict Str → Result (Dict Str)
unfolding has_prefix flag_of insert
parse bindings [] vars = ok vars
parse bindings (arg ∷ []) vars = flag_of bindings arg >>= λ pair. elim pair.1 [
  | none ↦ err (fault (missing_value pair.0))
  | some value ↦ ok (insert pair.0 value vars)
]
parse bindings (arg ∷ next ∷ args) vars = flag_of bindings arg >>= λ pair. elim pair.1 [
  | some value ↦ parse bindings (next ∷ args) (insert pair.0 value vars)
  | none ↦ elim (is_flag next) [
    | true ↦ err (fault (missing_value pair.0))
    | false ↦ parse bindings args (insert pair.0 next vars)
  ]
]

-- The source that env.Decode makes of its options.
abbrev env_source : Dict FieldPath → Env.Source
env_source bindings = record {
  id = str "env";
  prefix = str "__XCONF_UNUSED_";
  injected = none;
  strict = false;
  bindings = bindings;
  splits = [];
}

-- Read, where env.Decode of the schema is `env_decode`, and none where that has too little fuel.
unfoldable pub read :
    (Env.Source → Dict Str → Option (Result Layer)) → Option Error → Source → Option (Result Layer)
unfolding parse
read env_decode (some e) s = some (err e)
read env_decode none s = elim (parse s.bindings s.args []) [
  | err e ↦ some (err e)
  | ok vars ↦ env_decode (env_source s.bindings) vars
]
