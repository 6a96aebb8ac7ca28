-- ===== src/Adapters/Consul/Prefix.antt =====
-- `decodePrefix` and Read of contrib/sources/consul/consul.go.
use xconf.Prelude.{
  Bool, true, false, ◌&&◌, not, Option, none, some, List, [], ◌∷◌, ◌++◌, is_some, length,
  if◌then◌else◌,
}
use xconf.Text.{Str, str, has_prefix}
use xconf.Text.Decimal.{itoa}
use xconf.Text.Dict.{Dict, lookup, insert}
use xconf.Text.Sort.{by_key}
use xconf.Text.Split.{split}
use xconf.Text.Suffix.{has_suffix}
use xconf.Pointer.{FieldPath, pointer}
use xconf.Error.{
  Error, Result, ok, err, ◌>>=◌, not_found, fault, consul_settings, outside_prefix, empty_segment,
  duplicate_consul_key,
}
use xconf.Layer.{Layer, Location}
use xconf.Document.{decode}
use xconf.Adapters.Env
use xconf.Adapters.Consul.{Pair, Reply, Source, Match, valid, get, ignored}

-- strings.TrimPrefix(s, prefix), where the prefix is there.
unfoldable pub drop_prefix : Str → Str → Str
drop_prefix [] s = s
drop_prefix (b ∷ prefix) [] = []
drop_prefix (b ∷ prefix) (c ∷ s) = drop_prefix prefix s

abbrev any_empty : List Str → Bool
any_empty [] = false
any_empty ([] ∷ ss) = true
any_empty ((c ∷ s) ∷ ss) = any_empty ss

-- What the loop of decodePrefix keeps: the variables, the bindings, the locations and what is hashed.
pub record Gathered : Type 0 where
  pub vars : Dict Str
  pub bindings : Dict FieldPath
  pub locations : Dict Location
  pub hashed : Str

abbrev record_of : Pair → Str
record_of p =
    itoa (length p.key)
    ++ str ":"
    ++ p.key
    ++ str ":"
    ++ itoa p.modified
    ++ str ":"
    ++ itoa (length p.value)
    ++ str ":"
    ++ p.value

abbrev pub kept : Source → Pair → FieldPath → Gathered → Gathered
kept s p path st = record {
  vars = insert p.key p.value st.vars;
  bindings = insert p.key path st.bindings;
  locations =
      insert (pointer path) (record { name = s.id ++ str ":" ++ p.key; line = 0; column = 0 })
        st.locations;
  hashed = st.hashed ++ record_of p;
}

abbrev empty : Str → Bool
empty [] = true
empty (c ∷ s) = false

-- One turn of the loop over the pairs.
unfoldable pub gather_one : Match → Source → Pair → Gathered → Result Gathered
unfolding has_prefix drop_prefix ignored has_suffix split lookup
gather_one matches s p st =
    let suffix = drop_prefix s.key p.key in
    if not (has_prefix p.key s.key)
    then err (fault outside_prefix)
    else if ignored matches s suffix
    then ok st
    else if has_suffix p.key (str "/") && empty p.value
    then ok st
    else if any_empty (split suffix (str "/"))
    then err (fault empty_segment)
    else if is_some (lookup p.key st.vars)
    then err (fault duplicate_consul_key)
    else ok (kept s p (split suffix (str "/")) st)

unfoldable pub gather : Match → Source → Dict Pair → Gathered → Result Gathered
unfolding gather_one
gather matches s [] st = ok st
gather matches s ((key, p) ∷ ps) st = gather_one matches s p st >>= λ next. gather matches s ps next

-- The pairs at their keys, for sort.Slice by key.
unfoldable pub keyed : List Pair → Dict Pair
keyed [] = []
keyed (p ∷ ps) = (p.key, p) ∷ keyed ps

-- The source that env.Decode makes of its options.
abbrev env_source : Dict FieldPath → Env.Source
env_source bindings = record {
  id = str "env";
  prefix = str "__XCONF_CONSUL_";
  injected = none;
  strict = false;
  bindings = bindings;
  splits = [];
}

-- decodePrefix, where env.Decode of the schema is `env_decode`.
unfoldable pub decode_prefix :
    (Env.Source → Dict Str → Option (Result Layer))
    → (Str → Str)
    → Match
    → Source
    → List Pair
    → Option (Result Layer)
unfolding by_key keyed gather
decode_prefix env_decode digest matches s pairs =
    elim (gather matches s (by_key (keyed pairs))
      (record { vars = []; bindings = []; locations = []; hashed = [] })) [
        | err e ↦ some (err e)
        | ok st ↦ elim st.vars [
          | [] ↦ some (err not_found)
          | v ∷ vs ↦ elim (env_decode (env_source st.bindings) st.vars) [
            | none ↦ none
            | some r ↦
                some (
                  r >>= λ l.
                  ok (record l { locations = st.locations; revision = digest st.hashed }))
          ]
        ]
      ]

-- Read of what get returned; none where the walk of the schema in env.Decode has too little fuel.
unfoldable pub read_pairs :
    (Env.Source → Dict Str → Option (Result Layer))
    → (Str → Str)
    → Match
    → Source
    → List Pair
    → Option (Result Layer)
unfolding decode_prefix decode
read_pairs env_decode digest matches s [] = some (err not_found)
read_pairs env_decode digest matches s (p ∷ ps) =
    if s.list_client
    then decode_prefix env_decode digest matches s (p ∷ ps)
    else some (decode digest p.value s.decoder s.id (itoa p.modified))

unfoldable pub read :
    (Env.Source → Dict Str → Option (Result Layer))
    → (Str → Str)
    → Match
    → Reply
    → Option Error
    → Source
    → Option (Result Layer)
unfolding valid get read_pairs
read env_decode digest matches reply late s =
    if not (valid matches s)
    then some (err (fault consul_settings))
    else (elim (get reply late s.limit) [
      | err e ↦ some (err e)
      | ok got ↦ read_pairs env_decode digest matches s got.0
    ])
