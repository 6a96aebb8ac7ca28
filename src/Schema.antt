-- ===== src/Schema.antt =====
-- What the code reads of a schema of schemapb, a module outside the repository: its getters are a
-- parameter of the model. A pointer that may be nil is an `Option`, and a getter of a nil pointer
-- returns nil. `findField`, `refSchema` and `objectSchema` of merge.go, and the choice of the field
-- for a key that `mergeMap` and `pathSelection.validate` share.
use xconf.Prelude.{Bool, Option, none, some, List, [], ◌∷◌, ◌++◌, if◌then◌else◌}
use xconf.Text.{Str, str_eq}
use xconf.Text.Dict.{Dict, lookup}
use xconf.Value.{text, plain, Fields, get}

-- Schema_Field_Ref: GetId() with its namespace, name and version, and GetName().
pub record Ref : Type 0 where
  pub id : Option (Str × Str × Str)
  pub name : Str

-- Schema_Field_OneOf: GetDiscriminator() and GetVariants().
pub record OneOf (Schema : Type 0) : Type 0 where
  pub discriminator : Str
  pub variants : Dict Schema

-- Schema_Field_Map: GetValueField() and GetValueSchema().
pub record MapKind (Schema Field : Type 0) : Type 0 where
  pub value_field : Option Field
  pub value_schema : Option Schema

-- `object` is GetObject() with its GetSchema(), `list`, `computed` and `json` tell
-- whether GetList(), GetComputed() and GetJson() are not nil, and `object_field` is the field that the
-- code builds around a schema.
pub record Getters (Schema Field : Type 0) : Type 0 where
  pub fields : Schema → List Field
  pub name : Field → Str
  pub object : Field → Option (Option Schema)
  pub ref : Field → Option Ref
  pub one_of : Field → Option (OneOf Schema)
  pub map_of : Field → Option (MapKind Schema Field)
  pub list : Field → Bool
  pub defs : Schema → Dict Schema
  pub object_field : Schema → Field
  pub computed : Field → Bool
  pub json : Field → Bool

module _ {Schema Field : Type 0} (g : Getters Schema Field) where
  unfoldable pub find_named : List Field → Str → Option Field
  find_named [] k = none
  find_named (f ∷ fs) k = if str_eq (g.name f) k then some f else find_named fs k

  unfoldable pub find_field : Option Schema → Str → Option Field
  unfolding find_named
  find_field none k = none
  find_field (some s) k = find_named (g.fields s) k

  -- The key of a definition: the three parts of the id with a zero byte between them.
  unfoldable pub ref_key : Ref → Str
  ref_key r = elim r.id [
    | none ↦ r.name
    | some (namespace, name, version) ↦ namespace ++ (0 ∷ (name ++ (0 ∷ version)))
  ]

  unfoldable pub ref_schema : Schema → Field → Option Schema
  unfolding ref_key lookup
  ref_schema root f = elim (g.ref f) [ none ↦ none | some r ↦ lookup (ref_key r) (g.defs root) ]

  -- key, _ := value[discriminator].(string)
  unfoldable pub string_at : Str → Fields → Str
  unfolding get
  string_at k m = elim (get k m) [ some (text plain s) ↦ s | _ ↦ [] ]

  unfoldable pub object_schema : Schema → Option Field → Fields → Option Schema
  unfolding ref_schema string_at lookup
  object_schema root none value = none
  object_schema root (some f) value = elim (g.object f) [
    | some s ↦ s
    | none ↦ elim (g.ref f) [
      | some r ↦ ref_schema root f
      | none ↦ elim (g.one_of f) [
        | some union ↦ lookup (string_at union.discriminator value) union.variants
        | none ↦ none
      ]
    ]
  ]

  -- The field of a key in an object of the given schema, or in a map field.
  unfoldable pub member : Option Schema → Option Field → Str → Option Field
  unfolding find_field
  member schema none k = find_field schema k
  member schema (some container) k = elim (g.map_of container) [
    | none ↦ find_field schema k
    | some kind ↦ elim kind.value_field [
      | some f ↦ some f
      | none ↦ elim kind.value_schema [ none ↦ none | some s ↦ some (g.object_field s) ]
    ]
  ]

  abbrev pub union_of : Option Field → Option (OneOf Schema)
  union_of none = none
  union_of (some f) = g.one_of f
