-- ===== src/Merge.antt =====
-- `merger` of merge.go: merging the values of a layer into those of the layers below it,
-- and the provenance of every path. The edits of a layer are in Merge/Apply.
pub mod Apply
pub mod Values
pub mod Override
pub mod Untouched
pub mod Invariant
pub mod Provenance
pub mod Edits
use xconf.Prelude.{
  ℕ, zero, suc, ◌+◌, Bool, true, false, Option, none, some, List, [], ◌∷◌, ◌++◌, ◌&&◌, not, is_some,
  length, if◌then◌else◌,
}
use xconf.Text.{Str, str, has_prefix}
use xconf.Text.Dict.{Dict, lookup, append_at}
use xconf.Text.Decimal.{itoa}
use xconf.Pointer.{FieldPath, pointer, child, slash}
use xconf.Error.{Result, ok, err, ◌>>=◌, unknown_edit, root_edit, edit_parent}
use xconf.Value.{
  Value, plain, null, obj, list, Items, nil, cons, Fields, end, field, get, put, remove, as_map,
}
use xconf.Value.Equal.{deep_equal}
use xconf.Value.Clone.{clone}
use xconf.Schema.{Getters, OneOf, object_schema, member, union_of}
use xconf.Layer.{Location, Origin, EditKind, replace, delete, unknown, Edit, Layer, no_location}

-- m.origins
abbrev pub Origins : Type 0
Origins = Dict (List Origin)

-- path[:i]
unfoldable pub take : ℕ → FieldPath → FieldPath
take zero p = []
take (suc n) [] = []
take (suc n) (s ∷ p) = s ∷ take n p

-- The loop of `add`, from i down to 0: the location of the longest prefix that has one.
unfoldable pub nearest : ℕ → FieldPath → Dict Location → Option Location
unfolding take lookup pointer
nearest zero p locs = lookup [] locs
nearest (suc n) p locs =
    let rest = nearest n p locs in
    elim (lookup (pointer (take (suc n) p)) locs) [ some loc ↦ some loc | none ↦ rest ]

unfoldable pub add : FieldPath → Origin → Dict Location → Origins → Origins
unfolding nearest append_at pointer
add p o locs os = elim (nearest (length p) p locs) [
  | some loc ↦ append_at (pointer p) (record o { location = loc }) os
  | none ↦ append_at (pointer p) o os
]

-- The loop of `invalidate`: an entry whose key begins with the prefix gets the record too.
unfoldable pub append_below : Str → Origin → Origins → Origins
unfolding has_prefix
append_below prefix o [] = []
append_below prefix o ((k, history) ∷ os) =
    (k, if has_prefix k prefix then history ++ o ∷ [] else history) ∷ append_below prefix o os

unfoldable pub invalidate : FieldPath → Origin → Origins → Origins
unfolding append_below pointer
invalidate p o os = append_below (pointer p ++ slash ∷ []) o os

-- recordTree: the path, and below it the members of an object and the items of a list.
unfoldable mutual
  unfolding add child itoa

  pub record_tree : Value → FieldPath → Origin → Dict Location → Origins → Origins
  record_tree (obj plain m) p o locs os = record_fields m p o locs (add p o locs os)
  record_tree (list plain l) p o locs os = record_items l 0 p o locs (add p o locs os)
  record_tree _ p o locs os = add p o locs os

  pub record_items : Items → ℕ → FieldPath → Origin → Dict Location → Origins → Origins
  record_items nil i p o locs os = os
  record_items (cons v l) i p o locs os =
      record_items l (i + 1) p o locs (record_tree v (child p (itoa i)) o locs os)

  pub record_fields : Fields → FieldPath → Origin → Dict Location → Origins → Origins
  record_fields end p o locs os = os
  record_fields (field k v m) p o locs os =
      record_fields m p o locs (record_tree v (child p k) o locs os)

-- A union is replaced as a whole where the incoming object names another variant.
unfoldable pub changes_variant : {Schema : Type 0} → Option (OneOf Schema) → Fields → Fields → Bool
unfolding get deep_equal
changes_variant none lower upper = false
changes_variant (some union) lower upper = elim (get union.discriminator upper) [
  | none ↦ false
  | some next ↦ elim (get union.discriminator lower) [
    | none ↦ not (deep_equal null next)
    | some last ↦ not (deep_equal last next)
  ]
]

-- The map into which an incoming object is merged, or none where it replaces what was there.
unfoldable pub merge_target :
    {Schema : Type 0} → Option (OneOf Schema) → Option Value → Fields → Option Fields
unfolding changes_variant as_map
merge_target union none upper = none
merge_target union (some v) upper = elim (as_map v) [
  | none ↦ none
  | some lower ↦ if changes_variant union lower upper then none else some lower
]

-- dst[key] = incoming, with its provenance. `o` is the origin of the layer.
unfoldable pub replace_entry :
    Option Value → Value → FieldPath → Origin → Dict Location → Origins → Value × Origins
unfolding invalidate record_tree
replace_entry lower incoming p o locs os =
    let reset = record o { operation = str "replaced" } in
    let seen = if is_some lower then invalidate p reset os else os in
    (incoming, record_tree incoming p o locs seen)

module _ {Schema Field : Type 0} (g : Getters Schema Field) (root : Schema) where
  -- mergeMap, and what its loop does with one key: the value that the key gets, and the provenance.
  unfoldable mutual
    pub merge_entry :
        Value
        → Option Value
        → FieldPath
        → Option Field
        → Origin
        → Dict Location
        → Origins
        → Value × Origins
    merge_entry (obj plain upper) old p f o locs os = elim (merge_target (union_of g f) old upper) [
      | none ↦ replace_entry old (obj plain upper) p o locs os
      | some lower ↦
          let (merged, os') =
            merge_map upper lower p (object_schema g root f lower) f o locs (add p o locs os) in
          (obj plain merged, os')
    ]
    merge_entry incoming old p f o locs os = replace_entry old incoming p o locs os

    pub merge_map :
        Fields
        → Fields
        → FieldPath
        → Option Schema
        → Option Field
        → Origin
        → Dict Location
        → Origins
        → Fields × Origins
    merge_map end dst p schema container o locs os = (dst, os)
    merge_map (field k incoming src) dst p schema container o locs os =
        let (v, os') =
          merge_entry incoming (get k dst) (child p k) (member g schema container k) o locs os in
        merge_map src (put k v dst) p schema container o locs os'
