-- ===== src/Adapters/EnvFile.antt =====
-- `Source` of contrib/sources/envfile/envfile.go: its Read.
pub mod Options
use xconf.Prelude.{
  ℕ, Bool, true, false, ◌||◌, not, Option, none, some, List, [], ◌∷◌, ◌++◌, is_some, length, ltb,
  if◌then◌else◌,
}
use xconf.Text.{Str, str, str_eq}
use xconf.Text.Decimal.{itoa}
use xconf.Text.Dict.{Dict, lookup, insert}
use xconf.Text.Sort.{by_key}
use xconf.Text.Suffix.{has_suffix, trim_suffix}
use xconf.Pointer.{FieldPath, pointer}
use xconf.Error.{
  Error, Result, ok, err, ◌>>=◌, alive, invalid_file_limit, fault, named_fault, envfile_binding,
  file_bindings, both_values, empty_file_path, irregular_file, files_limit,
}
use xconf.Layer.{Layer, Location}
use xconf.Document.{Stream}
use xconf.Document
use xconf.Adapters.Numbers.{positive, spend}
use xconf.Adapters.Directory.{value_of, at_least_one}
use xconf.Adapters.Env
use xconf.Adapters.Env.Decode.{captured}

-- A file at a path: os.Stat with whether it is regular, os.Open, what ctx.Err() returns at the checks of
-- document.Read, the bytes, and the error of Close.
pub record File : Type 0 where
  pub stat : Result Bool
  pub opening : Option Error
  pub before : Option Error
  pub after : Option Error
  pub stream : Stream
  pub close : Option Error

-- `injected` is the environment that an option supplied, none where the process's is read. The limit is
-- an int64, by its bits.
pub record Source : Type 0 where
  pub id : Str
  pub bindings : Dict FieldPath
  pub injected : Option (List Str)
  pub trim : Bool
  pub limit : ℕ
  pub interval : ℕ

abbrev suffix : Str
suffix = str "_FILE"

abbrev empty_path : FieldPath → Bool
empty_path [] = true
empty_path (k ∷ p) = false

unfoldable pub any_invalid : Dict FieldPath → Bool
unfolding has_suffix str_eq
any_invalid [] = false
any_invalid ((name, p) ∷ bs) =
    (not (has_suffix name suffix) || str_eq name suffix || empty_path p) || any_invalid bs

-- The bytes of the file that a variable names.
unfoldable pub read_file : Str → File → ℕ → Result Str
unfolding Document.read
read_file name f remaining = elim f.stat [
  | err e ↦ err (named_fault name e)
  | ok regular ↦ if not regular then err (fault irregular_file) else (do
    opened ← alive f.opening
    all ← Document.read f.before f.after f.stream (at_least_one remaining)
    closed ← alive f.close
    ok all)
]

-- What the loop keeps: the values, the bindings, the locations, what is hashed and the bytes that remain.
pub record Progress : Type 0 where
  pub values : Dict Str
  pub bindings : Dict FieldPath
  pub locations : Dict Location
  pub hashed : Str
  pub remaining : ℕ

abbrev record_of : Str → Str → Str → Str
record_of name path all =
    itoa (length name)
    ++ str ":"
    ++ name
    ++ itoa (length path)
    ++ str ":"
    ++ path
    ++ itoa (length all)
    ++ str ":"
    ++ all

abbrev kept : Source → Str → FieldPath → Str → Str → ℕ → Progress → Progress
kept s name at path all rest st = record {
  values = insert name (value_of s.trim all) st.values;
  bindings = insert name at st.bindings;
  locations =
      insert (pointer at) (record { name = name ++ str ":" ++ path; line = 0; column = 0 })
        st.locations;
  hashed = st.hashed ++ record_of name path all;
  remaining = rest;
}

-- One turn of the loop over the names, for a variable that is set to a path.
unfoldable pub read_one :
    Source → (Str → File) → Dict Str → Str → FieldPath → Str → Progress → Result Progress
unfolding lookup trim_suffix read_file value_of
read_one s files vars name at path st =
    if is_some (lookup (trim_suffix name suffix) vars)
    then err (fault (both_values name))
    else if str_eq path []
    then err (fault (empty_file_path name))
    else (read_file name (files path) st.remaining >>= λ all.
        elim (spend st.remaining (length all)) [
          | none ↦ err (fault files_limit)
          | some rest ↦ ok (kept s name at path all rest st)
        ])

unfoldable pub read_names :
    Source → (Str → File) → Dict Str → Dict FieldPath → Progress → Result Progress
unfolding lookup read_one
read_names s files vars [] st = ok st
read_names s files vars ((name, at) ∷ names) st = elim (lookup name vars) [
  | none ↦ read_names s files vars names st
  | some path ↦ read_one s files vars name at path st >>= λ next. read_names s files vars names next
]

-- The source that env.Decode makes of its options.
abbrev env_source : Dict FieldPath → Env.Source
env_source bindings = record {
  id = str "env";
  prefix = str "__XCONF_ENVFILE_";
  injected = none;
  strict = false;
  bindings = bindings;
  splits = [];
}

-- The tests before the loop, and the loop.
unfoldable pub gather : Option Error → List Str → (Str → File) → Source → Result Progress
unfolding captured any_invalid by_key read_names
gather living environ files s = do
  limited ← (if positive s.limit then ok (tt {0}) else err (fault invalid_file_limit))
  alive_still ← alive living
  valid ← (if any_invalid s.bindings then err (fault envfile_binding) else ok (tt {0}))
  few ← (if ltb 1024 (length s.bindings) then err (fault file_bindings) else ok (tt {0}))
  read_names s files (captured (elim s.injected [ none ↦ environ | some es ↦ es ]) [])
      (by_key s.bindings)
      (record { values = []; bindings = []; locations = []; hashed = []; remaining = s.limit })

-- Read, where env.Decode of the schema is `env_decode`, and none where that has too little fuel.
unfoldable pub read :
    (Env.Source → Dict Str → Option (Result Layer))
    → (Str → Str)
    → Option Error
    → List Str
    → (Str → File)
    → Source
    → Option (Result Layer)
unfolding gather
read env_decode digest living environ files s = elim (gather living environ files s) [
  | err e ↦ some (err e)
  | ok st ↦ elim (env_decode (env_source st.bindings) st.values) [
    | none ↦ none
    | some r ↦
        some (r >>= λ l. ok (record l { locations = st.locations; revision = digest st.hashed }))
  ]
]
