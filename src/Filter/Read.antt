-- ===== src/Filter/Read.antt =====
-- `validate` and `allowedPaths.Read` of filter.go.
pub mod Laws
use xconf.Prelude.{
  ℕ, ◌+◌, Bool, true, false, Option, none, some, List, [], ◌∷◌, ◌++◌, ◌||◌, not, ltb, length,
  is_some, if◌then◌else◌,
}
use xconf.Text.{Str}
use xconf.Text.Dict.{Dict}
use xconf.Pointer.{FieldPath, child, parse_pointer}
use xconf.Error.{Result, ok, err, ◌>>=◌, filter_edit, filter_depth, filter_list, filter_one_of}
use xconf.Value.{Fields, end}
use xconf.Schema.{Getters, OneOf, object_schema, member, union_of}
use xconf.Layer.{Location, EditKind, replace, delete, unknown, Edit, Layer, no_layer}
use xconf.Layer.Clone.{clone_layer}
use xconf.Filter.{Selection, node, Children, leaf, branch, all_of, children_of, get_child}
use xconf.Filter.Paths.{at}
use xconf.Filter.Project.{project_values, project_edit}

abbrev has_children : Children → Bool
has_children leaf = false
has_children (branch k s cs) = true

abbrev check : Bool → Result (Unit {0}) → Result (Unit {0})
check true r = ok tt
check false r = r

module _ {Schema Field : Type 0} (g : Getters Schema Field) (root : Schema) where
  abbrev is_list : Option Field → Bool
  is_list none = false
  is_list (some f) = g.list f

  -- The loop over the variants of a union: the selection is checked against each of their schemas.
  unfoldable pub each_variant :
      (Option Schema → Result (Unit {0})) → Dict Schema → Result (Unit {0})
  each_variant f [] = ok tt
  each_variant f ((name, s) ∷ vs) = do done ← f (some s); each_variant f vs

  -- In a variant the selection has no container, so `validate` goes straight to the children there.
  unfoldable mutual
    pub validate : Selection → Option Schema → Option Field → FieldPath → Result (Unit {0})
    validate (node all cs) schema container p =
        let members = λ (s : Option Schema) (c : Option Field). validate_children cs s c p in
        if all || not (has_children cs)
        then ok tt
        else if ltb 128 (length p)
        then err filter_depth
        else if is_list container
        then err filter_list
        else elim (union_of g container) [
          | none ↦ members schema container
          | some union ↦
              if is_some (get_child union.discriminator cs)
              then err filter_one_of
              else each_variant (λ s. members s none) union.variants
        ]

    pub validate_children : Children → Option Schema → Option Field → FieldPath → Result (Unit {0})
    validate_children leaf schema container p = ok tt
    validate_children (branch k s cs) schema container p = do
      done ←
          validate s (object_schema g root (member g schema container k) end)
            (member g schema container k) (child p k)
      validate_children cs schema container p

-- The projection of the edits, in order.
unfoldable pub filter_edits : Selection → List Edit → Result (List Edit)
unfolding at project_edit
filter_edits s [] = ok []
filter_edits s (e ∷ es) = elim e.kind [
  | unknown n ↦ err filter_edit
  | _ ↦ elim e.path [
    | [] ↦ err filter_edit
    | k ∷ p ↦ do
      rest ← filter_edits s es
      ok (elim (at e.path s) [ none ↦ rest | some c ↦ project_edit c e ++ rest ])
  ]
]

abbrev keeps_location : Selection → Str → Bool
keeps_location s pointer = elim (parse_pointer pointer) [
  | none ↦ false
  | some p ↦ elim (at p s) [ none ↦ false | some c ↦ all_of c || has_children (children_of c) ]
]

-- The locations of the selected paths and of their ancestors.
unfoldable pub filter_locations : Selection → Dict Location → Dict Location
unfolding at parse_pointer
filter_locations s [] = []
filter_locations s ((pointer, loc) ∷ locs) =
    let rest = filter_locations s locs in
    if keeps_location s pointer then (pointer, loc) ∷ rest else rest

-- The new layer names its values, its revision, its locations and its edits; `Stale` stays nil.
unfoldable pub filter_layer : Selection → Layer → Result Layer
unfolding filter_edits filter_locations project_values
filter_layer s l = do
  edits ← filter_edits s l.edits
  ok (record {
    values = project_values s l.values;
    revision = l.revision;
    locations = filter_locations s l.locations;
    edits = edits;
    stale = none;
  })

-- `inner` is what the source below returns, when it is asked.
unfoldable pub filter_read :
    {Schema Field : Type 0}
    → Getters Schema Field
    → Selection
    → Schema
    → Result Layer
    → Result Layer
unfolding validate clone_layer filter_layer
filter_read g s schema inner = do
  valid ← validate g schema s (some schema) none []
  layer ← inner
  copy ← clone_layer layer
  filter_layer s copy
