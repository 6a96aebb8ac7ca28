-- ===== src/Adapters/Assign.antt =====
-- What the sources below contrib/sources share: writing a value at a path of a fresh map, whose
-- parents are made on the way, and the test for paths that overlap.
pub mod Laws
pub mod Overlap
pub mod Selected
use xconf.Prelude.{Bool, true, false, ◌||◌, Option, none, some, List, [], ◌∷◌, ◌++◌, if◌then◌else◌}
use xconf.Text.{Str, str_eq, has_prefix}
use xconf.Pointer.{FieldPath, pointer, slash}
use xconf.Value.{Value, null, plain, obj, Fields, end, get, put, as_map}

-- dst[part] == nil: a missing parent and a nil one are made. Where the parent is no object, the type
-- assertion panics, here none.
abbrev pub parent : Option Value → Option Fields
parent none = some end
parent (some null) = some end
parent (some (obj plain m)) = some m
parent (some _) = none

-- The same with `v, exists := dst[part]` and a checked assertion: a nil parent is no object.
abbrev pub strict_parent : Option Value → Option Fields
strict_parent none = some end
strict_parent (some (obj plain m)) = some m
strict_parent (some _) = none

abbrev with_member : Str → Fields → Option Fields → Option Fields
with_member k m none = none
with_member k m (some n) = some (put k (obj plain n) m)

-- The loop over path[:len(path)-1] and the write at the end; the slice of an empty path panics.
unfoldable pub assign : (Option Value → Option Fields) → FieldPath → Value → Fields → Option Fields
unfolding get put
assign into [] v m = none
assign into (k ∷ []) v m = some (put k v m)
assign into (k ∷ j ∷ p) v m = elim (into (get k m)) [
  | none ↦ none
  | some n ↦ with_member k m (assign into (j ∷ p) v n)
]

-- p == key || strings.HasPrefix(p, key+"/") || strings.HasPrefix(key, p+"/")
unfoldable pub overlaps : Str → Str → Bool
unfolding str_eq has_prefix
overlaps key p =
    str_eq p key || has_prefix p (key ++ slash ∷ []) || has_prefix key (p ++ slash ∷ [])

-- The inner loop over the pointers that were taken.
unfoldable pub overlaps_any : Str → List Str → Bool
unfolding overlaps
overlaps_any key [] = false
overlaps_any key (p ∷ ps) = overlaps key p || overlaps_any key ps

-- Several writes, one after the other.
unfoldable pub assign_all :
    (Option Value → Option Fields) → List (FieldPath × Value) → Fields → Option Fields
unfolding assign
assign_all into [] m = some m
assign_all into ((p, v) ∷ ws) m = elim (assign into p v m) [
  | none ↦ none
  | some r ↦ assign_all into ws r
]
