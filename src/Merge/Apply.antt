-- ===== src/Merge/Apply.antt =====
-- `merger.apply` of merge.go: the values of a layer, then its edits in order.
use xconf.Prelude.{Option, none, some, List, [], ◌∷◌}
use xconf.Text.{Str, str}
use xconf.Text.Dict.{Dict}
use xconf.Pointer.{FieldPath}
use xconf.Error.{Result, ok, err, ◌>>=◌, unknown_edit, root_edit, edit_parent}
use xconf.Value.{Value, plain, obj, Fields, end, get, put, remove, as_map}
use xconf.Value.Clone.{clone}
use xconf.Schema.{Getters}
use xconf.Layer.{Location, Origin, EditKind, replace, delete, unknown, Edit, Layer, no_location}
use xconf.Merge.{Origins, add, invalidate, record_tree, merge_map}

pub record Merger : Type 0 where
  pub values : Fields
  pub origins : Origins

-- v.(map[string]any), of a clone of a plain map
unfoldable pub object_of : Value → Fields
unfolding as_map
object_of v = elim (as_map v) [ some m ↦ m | none ↦ end ]

unfoldable pub clone_object : Fields → Result Fields
unfolding clone object_of
clone_object m = do v ← clone (obj plain m) 0; ok (object_of v)

-- The map with the changed object at a key.
abbrev pub place : Str → Fields → Fields × Option Value → Result (Fields × Option Value)
place k dst (sub, written) = ok (put k (obj plain sub) dst, written)

-- The walk along the path of an edit and the write at its end: the new map, and the value written.
-- A missing parent is made by Replace and ends a Delete. The value is cloned only after the walk.
unfoldable pub edit_map : EditKind → FieldPath → Value → Fields → Result (Fields × Option Value)
unfolding get put remove as_map clone
edit_map kind [] v dst = ok (dst, none)
edit_map delete (k ∷ []) v dst = ok (remove k dst, none)
edit_map kind (k ∷ []) v dst = do c ← clone v 0; ok (put k c dst, some c)
edit_map kind (k ∷ j ∷ p) v dst =
    let into = λ (m : Fields). edit_map kind (j ∷ p) v m >>= place k dst in
    elim (get k dst) [
      | none ↦ elim kind [ delete ↦ ok (dst, none) | _ ↦ into end ]
      | some w ↦ elim (as_map w) [ none ↦ err edit_parent | some m ↦ into m ]
    ]

-- The checks that stand before the walk.
unfoldable pub check_edit : Edit → Result (Unit {0})
check_edit e = elim e.kind [
  | unknown n ↦ err unknown_edit
  | _ ↦ elim e.path [ [] ↦ err root_edit | k ∷ p ↦ ok tt ]
]

unfoldable pub edit_origin : EditKind → Origin → Origin
edit_origin replace o = record o { operation = str "replace" }
edit_origin _ o = record o { operation = str "delete" }

-- The record of a deletion, which the path gets itself, or of the tree that was written.
unfoldable pub edit_record : Edit → Option Value → Origin → Dict Location → Origins → Origins
unfolding add record_tree
edit_record e none o locs os = elim e.kind [ delete ↦ add e.path o locs os | _ ↦ os ]
edit_record e (some v) o locs os = record_tree v e.path o locs os

unfoldable pub apply_edit : Origin → Dict Location → Edit → Merger → Result Merger
unfolding check_edit edit_map edit_origin edit_record invalidate
apply_edit o locs e m = do
  checked ← check_edit e
  (values, written) ← edit_map e.kind e.path e.value m.values
  let o' = edit_origin e.kind o
  ok (record {
    values = values;
    origins = edit_record e written o' locs (invalidate e.path o' m.origins);
  })

unfoldable pub apply_edits : Origin → Dict Location → List Edit → Merger → Result Merger
unfolding apply_edit
apply_edits o locs [] m = ok m
apply_edits o locs (e ∷ es) m = do m' ← apply_edit o locs e m; apply_edits o locs es m'

unfoldable pub layer_origin : Str → Layer → Origin
layer_origin name l = record {
  source = name;
  revision = l.revision;
  operation = str "set";
  location = no_location;
}

module _ {Schema Field : Type 0} (g : Getters Schema Field) (root : Schema) where
  unfoldable pub apply_values : Origin → Layer → Merger → Result Merger
  unfolding clone_object merge_map
  apply_values o l m = elim l.values [
    | none ↦ ok m
    | some vs ↦ do
      src ← clone_object vs
      let (values, os) = merge_map g root src m.values [] (some root) none o l.locations m.origins
      ok (record { values = values; origins = os })
  ]

  unfoldable pub apply : Str → Layer → Merger → Result Merger
  unfolding layer_origin apply_values apply_edits
  apply name l m = do
    m' ← apply_values (layer_origin name l) l m
    apply_edits (layer_origin name l) l.locations l.edits m'
