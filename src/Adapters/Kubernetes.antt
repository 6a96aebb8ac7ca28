-- ===== src/Adapters/Kubernetes.antt =====
-- `Source` of contrib/sources/kubernetes/kubernetes.go, for a ConfigMap or a Secret.
pub mod Options
pub mod Laws
pub mod Watch
use xconf.Prelude.{
  ℕ, Bool, true, false, ◌&&◌, ◌||◌, not, Option, none, some, List, [], ◌∷◌, ◌++◌, is_some, length,
  if◌then◌else◌,
}
use xconf.Text.{Str, str, str_eq}
use xconf.Text.Dict.{Dict, lookup, insert}
use xconf.Pointer.{FieldPath, pointer}
use xconf.Error.{
  Error, Result, ok, err, ◌>>=◌, alive, not_found, fault, kubernetes_settings, resource_version,
  kubernetes_limit, document_data, binding_path, overlapping_bindings, duplicate_key, nil_object,
  assertion,
}
use xconf.Value.{Value, text, bytes, plain, Fields, end}
use xconf.Layer.{Layer, Location}
use xconf.Document.{Decoder, decode}
use xconf.Adapters.Assign.{parent, assign, overlaps_any}
use xconf.Adapters.Numbers.{positive, nonnegative, spend}

-- What the client answers: an error, which apierrors.IsNotFound may hold of, a nil object, or one.
pub data Reply (A : Type 0) : Type 0 where
  refused : Bool → Error → Reply A
  missing : Reply A
  object : A → Reply A

-- What s.get returns.
pub data Got : Type 0 where
  failed : Bool → Error → Got
  got : Dict Value → Str → Got

-- A ConfigMap's Data, BinaryData and ResourceVersion; a Secret's Data and ResourceVersion.
pub record ConfigMap : Type 0 where
  pub entries : Dict Str
  pub binary : Dict Str
  pub version : Str

pub record Secret : Type 0 where
  pub entries : Dict Str
  pub version : Str

unfoldable pub text_values : Dict Str → Dict Value
text_values [] = []
text_values ((k, v) ∷ d) = (k, text plain v) ∷ text_values d

-- The loop over BinaryData: a key of Data too is an error.
unfoldable pub add_binary : Dict Str → Dict Value → Result (Dict Value)
unfolding lookup insert
add_binary [] values = ok values
add_binary ((k, v) ∷ d) values =
    let rest = add_binary d (insert k (bytes v) values) in
    if is_some (lookup k values) then err (fault duplicate_key) else rest

-- s.get of ConfigMap and of Secret
unfoldable pub config_map_get : Reply ConfigMap → Got
unfolding text_values add_binary
config_map_get (refused absent e) = failed absent e
config_map_get missing = failed false (fault nil_object)
config_map_get (object cm) = elim (add_binary cm.binary (text_values cm.entries)) [
  | err e ↦ failed false e
  | ok values ↦ got values cm.version
]

unfoldable pub secret_get : Reply Secret → Got
unfolding text_values
secret_get (refused absent e) = failed absent e
secret_get missing = failed false (fault nil_object)
secret_get (object s) = got (text_values s.entries) s.version

-- `client` tells whether the three functions of the client are set. A nil decoder or nil bindings are
-- none.
pub record Source : Type 0 where
  pub name : Str
  pub id : Str
  pub key : Str
  pub decoder : Option Decoder
  pub bindings : Option (Dict FieldPath)
  pub timeout : ℕ
  pub interval : ℕ
  pub limit : ℕ
  pub client : Bool

unfoldable pub valid : Source → Bool
unfolding str_eq
valid s =
    s.client
    && not (str_eq s.name [])
    && positive s.timeout
    && nonnegative s.interval
    && positive s.limit
    && ((str_eq s.key [] && not (is_some s.decoder))
        || (not (str_eq s.key []) && is_some s.decoder && not (is_some s.bindings)))

-- The bytes of a string or of a []byte; the values are nothing else.
abbrev pub value_bytes : Value → Option Str
value_bytes (text plain v) = some v
value_bytes (bytes v) = some v
value_bytes _ = none

abbrev pub value_size : Value → ℕ
value_size v = elim (value_bytes v) [ none ↦ 0 | some s ↦ length s ]

unfoldable pub within : ℕ → Dict Value → Result (Unit {0})
within remaining [] = ok tt
within remaining ((k, v) ∷ d) = elim (spend remaining (value_size v)) [
  | none ↦ err (fault kubernetes_limit)
  | some rest ↦ within rest d
]

-- The loop over the bindings: `taken` has the pointers seen so far.
unfoldable pub bind_keys :
    Str
    → Dict Value
    → List Str
    → Dict FieldPath
    → Fields
    → Dict Location
    → Result (Fields × Dict Location)
unfolding overlaps_any lookup insert assign pointer
bind_keys id values taken [] m locs = ok (m, locs)
bind_keys id values taken ((name, []) ∷ bs) m locs = err (fault binding_path)
bind_keys id values taken ((name, k ∷ p) ∷ bs) m locs =
    elim (overlaps_any (pointer (k ∷ p)) taken) [
      | true ↦ err (fault overlapping_bindings)
      | false ↦ elim (lookup name values) [
        | none ↦ bind_keys id values (pointer (k ∷ p) ∷ taken) bs m locs
        | some v ↦ elim (assign parent (k ∷ p) v m) [
          | none ↦ err (fault assertion)
          | some r ↦ bind_keys id values (pointer (k ∷ p) ∷ taken) bs r (
              insert (pointer (k ∷ p))
                (record { name = id ++ str "/" ++ name; line = 0; column = 0 }) locs)
        ]
      ]
    ]

-- Nil bindings select every key as a path of its own.
unfoldable pub literal_bindings : Dict Value → Dict FieldPath
literal_bindings [] = []
literal_bindings ((k, v) ∷ d) = (k, k ∷ []) ∷ literal_bindings d

unfoldable pub read_document : (Str → Str) → Dict Value → Decoder → Source → Str → Result Layer
unfolding lookup decode
read_document digest values d s revision = elim (lookup s.key values) [
  | none ↦ err not_found
  | some v ↦ elim (value_bytes v) [
    | none ↦ err (fault document_data)
    | some doc ↦ decode digest doc (some d) (s.id ++ str "/" ++ s.key) revision
  ]
]

unfoldable pub read_bindings : Dict Value → Source → Str → Result Layer
unfolding bind_keys literal_bindings
read_bindings values s revision = do
  (m, locs) ←
      bind_keys s.id values [] (elim s.bindings [ none ↦ literal_bindings values | some bs ↦ bs ])
        end []
  ok (record { values = some m; revision = revision; locations = locs; edits = []; stale = none })

-- What Read does with the values and the version, once the context was seen to be alive.
unfoldable pub read_values : (Str → Str) → Dict Value → Str → Source → Result Layer
unfolding within read_document read_bindings
read_values digest values revision s = do
  versioned ← (if str_eq revision [] then err (fault resource_version) else ok (tt {0}))
  fits ← within s.limit values
  elim s.decoder [
    | some d ↦ read_document digest values d s revision
    | none ↦ read_bindings values s revision
  ]

-- Read, where `late` is what ctx.Err() returns after the request.
unfoldable pub read : (Str → Str) → Option Error → Got → Source → Result Layer
unfolding valid read_values
read digest late (failed absent e) s =
    if valid s then err (if absent then not_found else e) else err (fault kubernetes_settings)
read digest late (got values revision) s =
    if valid s
    then (alive late >>= λ living. read_values digest values revision s)
    else err (fault kubernetes_settings)
