-- ===== src/Merge/Invariant.antt =====
-- The shape of the maps that a merge makes.
use xconf.Prelude.{◌≡◌, refl, ap, ◌∙◌, inl, inr, Option, none, some, [], Option-cases}
use xconf.Text.{Str}
use xconf.Text.Dict.{Dict}
use xconf.Pointer.{FieldPath, child}
use xconf.Value.{Value, plain, named, obj, Fields, end, field, get, as_map}
use xconf.Value.Ordered.{
  IsOrdered, AllOrdered, AllOrdered-IsSorted, get-IsOrdered, put-AllOrdered, Fields-ext,
}
use xconf.Schema.{Getters, member, union_of, object_schema}
use xconf.Layer.{Location, Origin}
use xconf.Merge.{Origins, add, merge_target, replace_entry, merge_entry, merge_map}
use xconf.Merge.Values.{
  entry_merged, entry_replaced, entry_other, get-merge_map, merge_field, merge_end,
}
use xconf.Merge.Untouched.{target_some}

-- A value that is absent or well formed.
abbrev OldIsOrdered : Option Value → Type 0
OldIsOrdered none = Unit
OldIsOrdered (some v) = IsOrdered v

get-OldIsOrdered : (k : Str) (m : Fields) → AllOrdered m → OldIsOrdered (get k m)
get-OldIsOrdered k m a = elim (Option-cases (get k m)) [
  | inl e ↦ rw e tt
  | inr (v, e) ↦ rw e (get-IsOrdered k m v a e)
]

module _ {Schema Field : Type 0} (g : Getters Schema Field) (root : Schema) (o : Origin)
    (locs : Dict Location) where
  mutual
    unfolding replace_entry as_map

    entry-IsOrdered :
        (w : Value) (old : Option Value) (q : FieldPath) (f : Option Field) (os : Origins)
        → IsOrdered w
        → OldIsOrdered old
        → IsOrdered (merge_entry g root w old q f o locs os).0
    entry-IsOrdered (obj plain upper) old q f os a b =
        elim (Option-cases (merge_target (union_of g f) old upper)) [
          | inl apart ↦ rw (entry_replaced g root o locs old q f os upper apart) a
          | inr (lower, joined) ↦ rw (entry_merged g root o locs old q f os upper lower joined) (
              map_ordered upper lower q (object_schema g root f lower) f (add q o locs os) a
                (rw (target_some (union_of g f) old upper lower joined) at b))
        ]
    entry-IsOrdered (obj named upper) old q f os a b =
        rw (entry_other g root o locs old q f os (obj named upper) refl) a
    entry-IsOrdered w old q f os a b = rw (entry_other g root o locs old q f os w refl) a

    map_ordered :
        (src dst : Fields) (q : FieldPath) (schema : Option Schema) (container : Option Field)
        (os : Origins)
        → AllOrdered src
        → AllOrdered dst
        → AllOrdered (merge_map g root src dst q schema container o locs os).0
    map_ordered end dst q schema container os a b = rw merge_end b
    map_ordered (field k v src) dst q schema container os a b =
        let f = member g schema container k in
        rw merge_field (
          map_ordered src _ q schema container _ a.2 (
            put-AllOrdered k _ dst
              (entry-IsOrdered v (get k dst) (child q k) f os a.1 (get-OldIsOrdered k dst b)) b))

  -- Merging a well-formed map into a well-formed map gives one: at every depth the keys are in
  -- order, each once.
  merge_map-AllOrdered :
      (src dst : Fields) (q : FieldPath) (schema : Option Schema) (container : Option Field)
      (os : Origins)
      → AllOrdered src
      → AllOrdered dst
      → AllOrdered (merge_map g root src dst q schema container o locs os).0
  merge_map-AllOrdered src dst q schema container os a b =
      map_ordered src dst q schema container os a b

  entry_alone :
      (w : Value) (q : FieldPath) (f : Option Field) (os : Origins)
      → (merge_entry g root w none q f o locs os).0 ≡ w
  unfolding merge_entry replace_entry merge_target
  entry_alone (obj plain upper) q f os = refl
  entry_alone (obj named upper) q f os = refl
  entry_alone w q f os = refl

  -- Merged into nothing, the values of a well-formed layer are kept as they are.
  pub merge_map-end :
      (src : Fields) (q : FieldPath) (schema : Option Schema) (container : Option Field)
      (os : Origins)
      → AllOrdered src
      → (merge_map g root src end q schema container o locs os).0 ≡ src
  unfolding get
  merge_map-end src q schema container os a =
      Fields-ext _ src (AllOrdered-IsSorted _ (map_ordered src end q schema container os a tt))
        (AllOrdered-IsSorted src a)
        λ k.
          get-merge_map g root o locs k src end q schema container os (AllOrdered-IsSorted src a)
          ∙ elim (Option-cases (get k src)) [
            | inl e ↦ rw e refl
            | inr (w, e) ↦
                rw e (ap some (entry_alone w (child q k) (member g schema container k) []))
          ]
