-- ===== src/Adapters/Directory.antt =====
-- `Source` of contrib/sources/directory/directory.go.
pub mod Options
pub mod Laws
pub mod Healthy
pub mod Tree
use xconf.Prelude.{
  ℕ, zero, suc, Bool, true, false, ◌&&◌, ◌||◌, not, ◌==◌, Option, none, some, List, [], ◌∷◌, ◌++◌,
  length, ltb, if◌then◌else◌,
}
use xconf.Text.{Str, str, str_eq, has_prefix}
use xconf.Text.Decimal.{itoa}
use xconf.Text.Dict.{Dict, insert}
use xconf.Text.Sort.{by_key}
use xconf.Text.Suffix.{has_suffix, trim_suffix}
use xconf.Pointer.{FieldPath, pointer}
use xconf.Error.{
  Error, Result, ok, err, ◌>>=◌, alive, not_found, fault, assertion, directory_limit,
  directory_kind, directory_generation, generation_changed, file_count, directory_binding,
  directory_overlap, irregular_file, directory_size,
}
use xconf.Value.{Value, text, plain, Fields, end}
use xconf.Layer.{Layer, Location}
use xconf.Document.{Stream}
use xconf.Document
use xconf.Adapters.Assign.{parent, assign}
use xconf.Adapters.Numbers.{positive, spend}

-- What the file system answers: that there is no such file, another error, or what was asked for.
pub data Found (A : Type 0) : Type 0 where
  absent : Found A
  failed : Error → Found A
  found : A → Found A

-- An opened file: what its Stat tells of its mode being regular, what ctx.Err() returns at the checks of
-- document.Read, and its bytes.
pub record File : Type 0 where
  pub regular : Result Bool
  pub before : Option Error
  pub after : Option Error
  pub stream : Stream

-- What one turn of the loop over the names meets at a file name: ctx.Err(), os.Stat with whether the mode
-- is regular, and os.Open.
pub record Probe : Type 0 where
  pub living : Option Error
  pub stat : Found Bool
  pub opened : Found File

-- What one attempt of Read meets: ctx.Err(), os.Stat with whether it is a directory, the link ..data
-- before and after, and by their names the directories, with IsDir of each entry, and the files.
pub record Attempt : Type 0 where
  pub living : Option Error
  pub stat : Found Bool
  pub link : Found Str
  pub entries : Str → Result (List (Str × Bool))
  pub probe : Str → Probe
  pub link_after : Found Str

-- Nil bindings are none. The limit is an int64, by its bits.
pub record Source : Type 0 where
  pub dir : Str
  pub id : Str
  pub bindings : Option (Dict FieldPath)
  pub interval : ℕ
  pub limit : ℕ
  pub trim : Bool

-- What is read of the libraries: filepath.IsLocal, filepath.Join, fs.ValidPath and the hexadecimal
-- SHA-256.
pub record Library : Type 0 where
  pub is_local : Str → Bool
  pub join : Str → Str → Str
  pub valid_path : Str → Bool
  pub digest : Str → Str

-- The visible entries of a directory that are no directories, at their names.
unfoldable pub visible : List (Str × Bool) → Dict FieldPath
unfolding insert has_prefix
visible [] = []
visible ((name, is_dir) ∷ es) =
    let rest = visible es in
    if not (has_prefix name (str ".")) && not is_dir then insert name (name ∷ []) rest else rest

-- The inner loop of the test for overlaps: the paths agree as far as the shorter one goes.
unfoldable pub agree : FieldPath → FieldPath → Bool
unfolding str_eq
agree [] q = true
agree (k ∷ p) [] = true
agree (k ∷ p) (j ∷ q) = str_eq k j && agree p q

unfoldable pub agree_any : FieldPath → Dict FieldPath → Bool
unfolding agree
agree_any p [] = false
agree_any p ((b, q) ∷ names) = agree p q || agree_any p names

unfoldable pub overlapping : Dict FieldPath → Bool
unfolding agree_any
overlapping [] = false
overlapping ((a, p) ∷ names) = agree_any p names || overlapping names

abbrev empty_path : FieldPath → Bool
empty_path [] = true
empty_path (k ∷ p) = false

unfoldable pub any_invalid : (Str → Bool) → Dict FieldPath → Bool
unfolding str_eq
any_invalid valid [] = false
any_invalid valid ((name, p) ∷ bs) =
    (not (valid name) || str_eq name (str ".") || empty_path p) || any_invalid valid bs

-- The value of a file: with `trim`, without a final newline and the return before it.
unfoldable pub value_of : Bool → Str → Str
unfolding has_suffix trim_suffix
value_of false all = all
value_of true all =
    let value = trim_suffix all (10 ∷ []) in
    if has_suffix all (13 ∷ 10 ∷ []) then trim_suffix value (13 ∷ []) else value

-- max(remaining, 1)
abbrev pub at_least_one : ℕ → ℕ
at_least_one n = if n == 0 then 1 else n

unfoldable pub read_opened : File → ℕ → Result Str
unfolding Document.read
read_opened f remaining = f.regular >>= λ regular.
    if regular
    then Document.read f.before f.after f.stream (at_least_one remaining)
    else err (fault irregular_file)

-- After os.Open.
unfoldable pub of_open : Found File → ℕ → Result (Option Str)
unfolding read_opened
of_open absent remaining = ok none
of_open (failed e) remaining = err e
of_open (found f) remaining = read_opened f remaining >>= λ all. ok (some all)

-- The bytes of one file, none where there is no such file.
unfoldable pub read_file : Probe → ℕ → Result (Option Str)
unfolding of_open
read_file p remaining = alive p.living >>= λ living. elim p.stat [
  | absent ↦ ok none
  | failed e ↦ err e
  | found regular ↦ if regular then of_open p.opened remaining else err (fault irregular_file)
]

-- What is hashed of a file.
abbrev record_of : Str → Str → Str
record_of name all = itoa (length name) ++ str ":" ++ name ++ itoa (length all) ++ str ":" ++ all

-- The values, the locations, what is hashed and the bytes that remain.
pub record Progress : Type 0 where
  pub values : Fields
  pub locations : Dict Location
  pub hashed : Str
  pub remaining : ℕ

abbrev pub start : ℕ → Progress
start limit = record { values = end; locations = []; hashed = []; remaining = limit }

-- One turn of the loop over the names, where a file has these bytes.
unfoldable pub note : Library → Source → Str → FieldPath → Str → Progress → Result Progress
unfolding insert pointer value_of assign
note lib s name path all st = elim (spend st.remaining (length all)) [
  | none ↦ err (fault directory_size)
  | some rest ↦ elim (assign parent path (text plain (value_of s.trim all)) st.values) [
    | none ↦ err (fault assertion)
    | some values ↦ ok (record {
      values = values;
      locations =
          insert (pointer path) (record { name = lib.join s.dir name; line = 0; column = 0 })
            st.locations;
      hashed = st.hashed ++ record_of name all;
      remaining = rest;
    })
  ]
]

unfoldable pub read_names :
    Library → Source → (Str → Probe) → Str → Dict FieldPath → Progress → Result Progress
unfolding read_file note
read_names lib s probe base [] st = ok st
read_names lib s probe base ((name, path) ∷ names) st =
    read_file (probe (lib.join base name)) st.remaining >>= λ o. elim o [
      | none ↦ read_names lib s probe base names st
      | some all ↦ note lib s name path all st >>= λ next. read_names lib s probe base names next
    ]

abbrev layer_of : Library → Progress → Layer
layer_of lib st = record {
  values = some st.values;
  revision = lib.digest st.hashed;
  locations = st.locations;
  edits = [];
  stale = none;
}

unfoldable pub read_bound : Library → Source → Attempt → Str → Dict FieldPath → Result Layer
unfolding any_invalid by_key overlapping read_names
read_bound lib s a base bindings =
    if ltb 1024 (length bindings)
    then err (fault file_count)
    else if any_invalid lib.valid_path bindings
    then err (fault directory_binding)
    else if overlapping (by_key bindings)
    then err (fault directory_overlap)
    else (read_names lib s a.probe base (by_key bindings) (start s.limit) >>= λ st.
        ok (layer_of lib st))

-- read of the directory `base`.
unfoldable pub read_base : Library → Source → Attempt → Str → Result Layer
unfolding visible read_bound
read_base lib s a base = elim s.bindings [
  | some bindings ↦ read_bound lib s a base bindings
  | none ↦ a.entries base >>= λ es. read_bound lib s a base (visible es)
]

-- generation, where os.Readlink answers `link`.
unfoldable pub generation : Library → Found Str → Result Str
generation lib absent = ok []
generation lib (failed e) = err e
generation lib (found target) =
    if lib.is_local target then ok target else err (fault directory_generation)

abbrev pub base_of : Library → Source → Str → Str
base_of lib s gen = if str_eq gen [] then s.dir else lib.join s.dir gen

-- The rest of an attempt, at the directory of the generation: none where it changed meanwhile.
unfoldable pub pinned : Library → Source → Attempt → Str → Option (Result Layer)
unfolding read_base generation str_eq
pinned lib s a gen = elim (generation lib a.link_after) [
  | err e ↦ some (err e)
  | ok later ↦ if str_eq gen later then some (read_base lib s a (base_of lib s gen)) else none
]

-- After os.Stat of the directory.
unfoldable pub of_stat : Library → Source → Attempt → Found Bool → Option (Result Layer)
unfolding generation pinned
of_stat lib s a absent = some (err not_found)
of_stat lib s a (failed e) = some (err e)
of_stat lib s a (found false) = some (err (fault directory_kind))
of_stat lib s a (found true) = elim (generation lib a.link) [
  | err e ↦ some (err e)
  | ok gen ↦ pinned lib s a gen
]

-- One turn of the loop of Read; none is `continue`.
unfoldable pub attempt : Library → Source → Attempt → Option (Result Layer)
unfolding of_stat
attempt lib s a = elim a.living [ some e ↦ some (err e) | none ↦ of_stat lib s a a.stat ]

unfoldable pub attempts : Library → Source → (ℕ → Attempt) → ℕ → ℕ → Result Layer
unfolding attempt
attempts lib s a zero k = err (fault generation_changed)
attempts lib s a (suc n) k = elim (attempt lib s (a k)) [
  | none ↦ attempts lib s a n (suc k)
  | some r ↦ r
]

-- Read, where `a k` is what its attempt number k meets.
unfoldable pub read : Library → Source → (ℕ → Attempt) → Result Layer
unfolding attempts
read lib s a = if positive s.limit then attempts lib s a 4 0 else err (fault directory_limit)
