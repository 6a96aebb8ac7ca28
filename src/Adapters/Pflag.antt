-- ===== src/Adapters/Pflag.antt =====
-- `New` of contrib/sources/pflag/pflag.go: the layer that is captured from a set of flags.
use xconf.Prelude.{
  Bool, true, false, ◌||◌, not, Option, none, some, List, [], ◌∷◌, ◌++◌, is_some, if◌then◌else◌,
}
use xconf.Text.{Str, str, str_eq}
use xconf.Text.Dict.{Dict, lookup, insert}
use xconf.Text.Suffix.{trim_suffix}
use xconf.Pointer.{FieldPath, pointer}
use xconf.Error.{
  Result, ok, err, ◌>>=◌, fault, named_fault, nil_flags, flag_binding, flag_overlap, flag_type,
  assertion,
}
use xconf.Value.{Value, list, text, plain, Items, nil, cons, Fields, end}
use xconf.Layer.{Layer, Location}
use xconf.Adapters.Assign.{parent, assign, overlaps_any}

-- A flag: its name, the Type() and the String() of its value, what GetSlice() and Get() of the value
-- return, none where it has no such method.
pub record Flag : Type 0 where
  pub name : Str
  pub kind : Str
  pub shown : Str
  pub slice : Option (List Str)
  pub getter : Option Value

-- A FlagSet after parsing: the names that Lookup finds, and the changed flags in the order of Visit.
pub record FlagSet : Type 0 where
  pub names : Dict Flag
  pub changed : List Flag

-- What is called of pflag and of Go's library: the three getters of maps by the type and the name, and
-- the parsers of strings by the type.
pub record Library : Type 0 where
  pub string_map : Str → Str → Result Value
  pub parse : Str → Str → Result Value

-- The types of scalar that a string is a value of as it is, and those that a parser is called for.
abbrev as_they_are : List Str
as_they_are = str "string" ∷ str "ip" ∷ str "ipNet" ∷ str "ipMask" ∷ []

abbrev parsed : List Str
parsed =
    str "bool"
    ∷ str "int"
    ∷ str "int8"
    ∷ str "int16"
    ∷ str "int32"
    ∷ str "int64"
    ∷ str "count"
    ∷ str "uint"
    ∷ str "uint8"
    ∷ str "uint16"
    ∷ str "uint32"
    ∷ str "uint64"
    ∷ str "float32"
    ∷ str "float64"
    ∷ str "duration"
    ∷ str "bytesHex"
    ∷ str "bytesBase64"
    ∷ []

abbrev string_maps : List Str
string_maps = str "stringToString" ∷ str "stringToInt" ∷ str "stringToInt64" ∷ []

unfoldable pub one_of : List Str → Str → Bool
unfolding str_eq
one_of [] s = false
one_of (t ∷ ts) s = str_eq t s || one_of ts s

unfoldable pub scalar : Library → Str → Str → Result Value
unfolding one_of
scalar lib kind raw =
    if one_of as_they_are kind
    then ok (text plain raw)
    else if one_of parsed kind
    then lib.parse kind raw
    else err (fault (flag_type kind))

-- The loop over the strings of a slice.
unfoldable pub scalars : Library → Str → List Str → Result Items
unfolding scalar
scalars lib kind [] = ok nil
scalars lib kind (raw ∷ raws) =
    scalar lib kind raw >>= λ v. (scalars lib kind raws >>= λ vs. ok (cons v vs))

abbrev item_kind : Str → Str
item_kind kind =
    let t = trim_suffix kind (str "Slice") in
    if str_eq t (str "stringArray") then str "string" else t

-- readValue
unfoldable pub read_value : Library → Flag → Result Value
unfolding one_of scalars scalar trim_suffix str_eq
read_value lib f =
    if one_of string_maps f.kind then lib.string_map f.kind f.name else (elim f.slice [
      | some raws ↦ scalars lib (item_kind f.kind) raws >>= λ vs. ok (list plain vs)
      | none ↦ elim f.getter [ some v ↦ ok v | none ↦ scalar lib f.kind f.shown ]
    ])

abbrev empty_path : FieldPath → Bool
empty_path [] = true
empty_path (k ∷ p) = false

-- The loop over the bindings: `taken` has the pointers seen so far.
unfoldable pub check : FlagSet → List Str → Dict FieldPath → Result (Unit {0})
unfolding lookup overlaps_any pointer
check set taken [] = ok tt
check set taken ((name, p) ∷ bs) =
    let rest = check set (pointer p ∷ taken) bs in
    if not (is_some (lookup name set.names)) || empty_path p
    then err (fault (flag_binding name))
    else if overlaps_any (pointer p) taken
    then err (fault flag_overlap)
    else rest

-- conf.decode, if there is one, and else readValue.
abbrev pub value_of : Library → Option (Flag → Result Value) → Flag → Result Value
value_of lib none f = read_value lib f
value_of lib (some decode) f = decode f

-- One call of the function that Visit is given.
unfoldable pub visit_one :
    Library
    → Option (Flag → Result Value)
    → Dict FieldPath
    → Flag
    → Fields × Dict Location
    → Result (Fields × Dict Location)
unfolding lookup read_value assign pointer insert
visit_one lib decode bindings f (m, locs) = elim (lookup f.name bindings) [
  | none ↦ ok (m, locs)
  | some path ↦ elim (value_of lib decode f) [
    | err e ↦ err (named_fault f.name e)
    | ok v ↦ elim (assign parent path v m) [
      | none ↦ err (fault assertion)
      | some r ↦ ok (
        r,
        insert (pointer path) (record { name = str "--" ++ f.name; line = 0; column = 0 }) locs,
      )
    ]
  ]
]

-- Visit, which after an error does nothing.
unfoldable pub visit :
    Library
    → Option (Flag → Result Value)
    → Dict FieldPath
    → List Flag
    → Fields × Dict Location
    → Result (Fields × Dict Location)
unfolding visit_one
visit lib decode bindings [] st = ok st
visit lib decode bindings (f ∷ fs) st =
    visit_one lib decode bindings f st >>= λ next. visit lib decode bindings fs next

-- The layer that New captures; a nil set is none.
unfoldable pub capture :
    Library → Option (Flag → Result Value) → Option FlagSet → Dict FieldPath → Result Layer
unfolding check visit
capture lib decode none bindings = err (fault nil_flags)
capture lib decode (some set) bindings = do
  checked ← check set [] bindings
  (m, locs) ← visit lib decode bindings set.changed (end, [])
  ok (record { values = some m; revision = []; locations = locs; edits = []; stale = none })
