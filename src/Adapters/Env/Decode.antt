-- ===== src/Adapters/Env/Decode.antt =====
-- `decode`, `Decode` and `Read` of contrib/sources/env/env.go.
pub mod Laws
use xconf.Prelude.{
  ℕ, Bool, true, false, ◌&&◌, ◌||◌, not, Option, none, some, List, [], ◌∷◌, ◌==◌, if◌then◌else◌,
}
use xconf.Text.{Str, str_eq, has_prefix}
use xconf.Text.Dict.{Dict, lookup, insert}
use xconf.Text.Sort.{by_key}
use xconf.Text.Split.{split}
use xconf.Pointer.{FieldPath, pointer}
use xconf.Error.{
  Error, Result, ok, err, ◌>>=◌, public, fault, nil_schema, empty_binding, unknown_name,
  ambiguous_container, empty_separator, invalid_json, trailing_json, overlapping_names,
  parent_object,
}
use xconf.Value.{Value, text, list, plain, Items, nil, cons, Fields, end}
use xconf.Layer.{Layer, Location}
use xconf.Schema.{Getters}
use xconf.Adapters.Assign.{strict_parent, assign, overlaps_any}
use xconf.Adapters.Env.{Unicode, Source, Binding, path_eq}
use xconf.Adapters.Env.Names.{Bindings, Walk, out_of_fuel, ended, visit}

-- What two calls of Decode with UseNumber give of a string: no value first, a value and then no end of
-- the input, or a value alone.
pub data Json : Type 0 where
  invalid trailing : Json
  value : Value → Json

-- The loop for a candidate with the same path: its two flags, or false.
unfoldable pub candidate : FieldPath → Bindings → Bool × Bool
unfolding path_eq
candidate p [] = (false, false)
candidate p ((name, b) ∷ bs) =
    if path_eq b.path p then (b.container, b.ambiguous) else candidate p bs

-- The loop over s.bindings.
unfoldable pub bind_all : Dict FieldPath → Bindings → Result Bindings
unfolding candidate insert
bind_all [] b = ok b
bind_all ((name, []) ∷ bs) b = err (fault empty_binding)
bind_all ((name, k ∷ p) ∷ bs) b =
    let found = candidate (k ∷ p) b in
    bind_all bs (insert name (record { path = k ∷ p; container = found.0; ambiguous = found.1 }) b)

unfoldable pub texts : List Str → Items
texts [] = nil
texts (s ∷ ss) = cons (text plain s) (texts ss)

-- The value of a name with a separator.
unfoldable pub split_value : Str → Str → Result (Option Value)
unfolding texts split
split_value raw [] = err (fault empty_separator)
split_value [] (c ∷ sep) = ok (some (list plain nil))
split_value (r ∷ raw) (c ∷ sep) = ok (some (list plain (texts (split (r ∷ raw) (c ∷ sep)))))

unfoldable pub of_json : Str → Json → Result (Option Value)
of_json name invalid = err (fault (invalid_json name))
of_json name trailing = err (fault (trailing_json name))
of_json name (value v) = ok (some v)

-- The value of a container's name; none where the variable is empty.
unfoldable pub json_value : (Str → Json) → Str → Str → Result (Option Value)
unfolding of_json
json_value json name [] = ok none
json_value json name (r ∷ raw) = of_json name (json (r ∷ raw))

-- The value of a bound variable, none where it counts as unset.
unfoldable pub value_of : (Str → Json) → Source → Str → Binding → Str → Result (Option Value)
unfolding lookup split_value json_value
value_of json s name b raw = elim (lookup name s.splits) [
  | some sep ↦ split_value raw sep
  | none ↦ if b.container then json_value json name raw else ok (some (text plain raw))
]

-- The values, the locations and the pointers that were assigned.
pub record Progress : Type 0 where
  pub values : Fields
  pub locations : Dict Location
  pub assigned : List Str

abbrev pub stored : Str → FieldPath → Fields → Progress → Progress
stored name p values st = record {
  values = values;
  locations = insert (pointer p) (record { name = name; line = 0; column = 0 }) st.locations;
  assigned = pointer p ∷ st.assigned;
}

-- The end of a turn of the loop over the variables: the value at its path.
unfoldable pub place : Str → FieldPath → Value → Progress → Result Progress
unfolding overlaps_any assign pointer
place name p v st =
    if overlaps_any (pointer p) st.assigned
    then err (fault (overlapping_names (pointer p)))
    else (elim (assign strict_parent p v st.values) [
      | none ↦ err (fault parent_object)
      | some values ↦ ok (stored name p values st)
    ])

-- A turn for a variable that is bound.
unfoldable pub assign_var : (Str → Json) → Source → Str → Binding → Str → Progress → Result Progress
unfolding value_of place
assign_var json s name b raw st =
    if b.ambiguous
    then err (fault (ambiguous_container name))
    else (value_of json s name b raw >>= λ o. elim o [
      | none ↦ ok st
      | some v ↦ place name b.path v st
    ])

-- s.strict && s.prefix != "" && strings.HasPrefix(name, s.prefix)
abbrev pub refuses : Source → Str → Bool
refuses s name = s.strict && not (str_eq s.prefix []) && has_prefix name s.prefix

-- The loop over the variables.
unfoldable pub assign_vars :
    (Str → Json) → Source → Bindings → Dict Str → Progress → Result Progress
unfolding lookup assign_var
assign_vars json s b [] st = ok st
assign_vars json s b ((name, raw) ∷ vars) st = elim (lookup name b) [
  | none ↦ if refuses s name then err (fault (unknown_name name)) else assign_vars json s b vars st
  | some bound ↦ assign_var json s name bound raw st >>= λ next. assign_vars json s b vars next
]

abbrev pub layer_of : Progress → Layer
layer_of st = record {
  values = some st.values;
  revision = [];
  locations = st.locations;
  edits = [];
  stale = none;
}

abbrev pub fresh : Progress
fresh = record { values = end; locations = []; assigned = [] }

-- decode after the walk of the schema. A map is walked in the order of its entries.
unfoldable pub decode_bound : (Str → Json) → Source → Dict Str → Bindings → Result Layer
unfolding bind_all by_key assign_vars
decode_bound json s vars names = do
  bound ← bind_all s.bindings names
  st ← assign_vars json s bound (by_key vars) fresh
  ok (layer_of st)

-- The variables of an environment: what stands before and after the first `=` of an entry.
unfoldable pub cut : Str → Option (Str × Str)
cut [] = none
cut (c ∷ s) =
    let rest = cut s in
    if c == b'='
    then some ([], s)
    else (elim rest [ none ↦ none | some kv ↦ some (c ∷ kv.0, kv.1) ])

unfoldable pub captured : List Str → Dict Str → Dict Str
unfolding cut insert
captured [] vars = vars
captured (entry ∷ es) vars = elim (cut entry) [
  | none ↦ captured es vars
  | some kv ↦ captured es (insert kv.0 kv.1 vars)
]

-- x.Public of an error or none.
abbrev pub publicly : Result Layer → Result Layer
publicly (ok l) = ok l
publicly (err e) = err (public e)

module _ {Schema Field : Type 0} (g : Getters Schema Field) (same : Schema → Schema → Bool)
    (u : Unicode) (json : Str → Json) where
  -- None where the fuel of the walk is too small; a nil schema is none.
  unfoldable pub decode : ℕ → Source → Option Schema → Dict Str → Option (Result Layer)
  unfolding visit decode_bound
  decode fuel s none vars = some (err nil_schema)
  decode fuel s (some root) vars = elim (visit g same u s root fuel [] root [] []) [
    | out_of_fuel ↦ none
    | ended r ↦ some (r >>= λ names. decode_bound json s vars names)
  ]

  -- Decode
  unfoldable pub decode_vars : ℕ → Source → Option Schema → Dict Str → Option (Result Layer)
  unfolding decode
  decode_vars fuel s schema vars = elim (decode fuel s schema vars) [
    | none ↦ none
    | some r ↦ some (publicly r)
  ]

  -- Read, where ctx.Err() is `living` and os.Environ() is `environ`.
  unfoldable pub read : ℕ → Option Error → List Str → Source → Option Schema → Option (Result Layer)
  unfolding decode_vars captured
  read fuel (some e) environ s schema = some (err e)
  read fuel none environ s schema =
      decode_vars fuel s schema (captured (elim s.injected [ none ↦ environ | some es ↦ es ]) [])
