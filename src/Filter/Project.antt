-- ===== src/Filter/Project.antt =====
-- `project` and `projectEdit` of filter.go: what a selection keeps of the values and of an edit.
pub mod Laws
pub mod Kept
pub mod Edits
use xconf.Prelude.{Bool, true, false, Option, none, some, List, [], ◌∷◌, ◌++◌, if◌then◌else◌}
use xconf.Text.{Str}
use xconf.Pointer.{FieldPath, child}
use xconf.Value.{Value, null, plain, obj, Fields, end, field, get, put, as_map}
use xconf.Layer.{EditKind, replace, delete, unknown, Edit}
use xconf.Filter.{Selection, node, Children, leaf, branch, all_of}

-- A projected object is kept unless it is empty.
abbrev pub keep_fields : Fields → Option Value
keep_fields end = none
keep_fields (field k v m) = some (obj plain (field k v m))

-- out[key] = value, if the value is kept.
abbrev pub put_kept : Str → Option Value → Fields → Fields
put_kept k none out = out
put_kept k (some v) out = put k v out

-- What a child of the selection makes of the member at its key, which may be missing.
abbrev pub on_member : (Value → Option Value) → Option Value → Option Value
on_member f none = none
on_member f (some w) = f w

-- The second result of `project` tells whether the first is kept: none stands for a value that is
-- not.
unfoldable mutual
  pub project : Selection → Value → Option Value
  project (node true cs) v = some v
  project (node false cs) v = elim (as_map v) [
    | none ↦ none
    | some m ↦ keep_fields (project_children cs m)
  ]

  pub project_children : Children → Fields → Fields
  project_children leaf m = end
  project_children (branch k s cs) m =
      put_kept k (on_member (project s) (get k m)) (project_children cs m)

-- The projection of a layer's values: an empty object is kept there, and a nil map only under
-- `all`.
unfoldable pub project_values : Selection → Option Fields → Option Fields
unfolding project
project_values (node true cs) values = values
project_values (node false cs) none = some (project_children cs end)
project_values (node false cs) (some m) = some (project_children cs m)

-- The edit that an edit of an ancestor means for the child at a key.
unfoldable pub child_edit : Str → Edit → Edit
unfolding child get as_map
child_edit k e =
    let gone : Edit = record { kind = delete; path = child e.path k; value = null } in
    elim e.kind [
      | replace ↦ elim (as_map e.value) [
        | none ↦ gone
        | some m ↦ elim (get k m) [
          | none ↦ gone
          | some v ↦ record { kind = replace; path = child e.path k; value = v }
        ]
      ]
      | _ ↦ gone
    ]

-- The edits that `projectEdit` appends.
unfoldable mutual
  unfolding child_edit

  pub project_edit : Selection → Edit → List Edit
  project_edit (node true cs) e = e ∷ []
  project_edit (node false cs) e = project_edits cs e

  pub project_edits : Children → Edit → List Edit
  project_edits leaf e = []
  project_edits (branch k s cs) e = project_edit s (child_edit k e) ++ project_edits cs e
