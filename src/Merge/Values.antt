-- ===== src/Merge/Values.antt =====
-- The values that `mergeMap` leaves.
use xconf.Prelude.{◌≡◌, refl, ap, ◌∙◌, inl, inr, Option, none, some, [], Option-cases, Bool-cases}
use xconf.Text.{Str, str_eq}
use xconf.Text.Laws.{str_eq_iff}
use xconf.Text.Dict.{Dict}
use xconf.Pointer.{FieldPath, child}
use xconf.Value.{plain, named, Value, obj, Fields, end, field, get, put, as_map, as_map}
use xconf.Value.Maps.{get-put, IsSorted, get_below, get_field}
use xconf.Schema.{Getters, member, union_of, object_schema}
use xconf.Layer.{Location, Origin}
use xconf.Merge.{Origins, add, merge_target, replace_entry, merge_entry, merge_map}

module _ {Schema Field : Type 0} (g : Getters Schema Field) (root : Schema) (o : Origin)
    (locs : Dict Location) where
  -- What becomes of one key, by cases on what the layer brings.
  module _ (old : Option Value) (p : FieldPath) (f : Option Field) (os : Origins) where
    pub entry_merged :
        (upper lower : Fields)
        → merge_target (union_of g f) old upper ≡ some lower
        → merge_entry g root (obj plain upper) old p f o locs os
          ≡ let r =
              merge_map g root upper lower p
                (object_schema g root f lower)
                f
                o
                locs
                (add p o locs os) in
            (obj plain r.0, r.1)
    unfolding merge_entry
    entry_merged upper lower e = rw (e, merge_entry)

    pub entry_replaced :
        (upper : Fields)
        → merge_target (union_of g f) old upper ≡ none
        → merge_entry g root (obj plain upper) old p f o locs os
          ≡ replace_entry old (obj plain upper) p o locs os
    unfolding merge_entry
    entry_replaced upper e = rw (e, merge_entry)

    pub entry_other :
        (v : Value)
        → as_map v ≡ none
        → merge_entry g root v old p f o locs os ≡ replace_entry old v p o locs os
    unfolding merge_entry as_map
    entry_other (obj plain m) e = cc
    entry_other (obj named m) e = refl
    entry_other _ e = refl

  mutual
    unfolding replace_entry merge_map

    same_entry :
        (v : Value) (old : Option Value) (p : FieldPath) (f : Option Field) (os os' : Origins)
        → (merge_entry g root v old p f o locs os).0 ≡ (merge_entry g root v old p f o locs os').0
    same_entry (obj plain upper) old p f os os' =
        elim (Option-cases (merge_target (union_of g f) old upper)) [
          | inl e ↦ rw (entry_replaced old p f os upper e, entry_replaced old p f os' upper e)
          | inr (lower, e) ↦
              rw (entry_merged old p f os upper lower e, entry_merged old p f os' upper lower e)
                (ap (obj plain) (
                  same_map upper lower p (object_schema g root f lower) f (add p o locs os)
                    (add p o locs os')))
        ]
    same_entry (obj named upper) old p f os os' = refl
    same_entry _ old p f os os' = refl

    same_map :
        (src dst : Fields) (p : FieldPath) (schema : Option Schema) (container : Option Field)
        (os os' : Origins)
        → (merge_map g root src dst p schema container o locs os).0
          ≡ (merge_map g root src dst p schema container o locs os').0
    same_map end dst p schema container os os' = refl
    same_map (field k v src) dst p schema container os os' =
        let f = member g schema container k in
        let a = merge_entry g root v (get k dst) (child p k) f o locs os in
        let b = merge_entry g root v (get k dst) (child p k) f o locs os' in
        same_map src (put k a.0 dst) p schema container a.1 b.1
        ∙ ap (λ (w : Value). (merge_map g root src (put k w dst) p schema container o locs b.1).0)
            (same_entry v (get k dst) (child p k) f os os')

  pub merge_end :
      (dst : Fields) (p : FieldPath) (schema : Option Schema) (container : Option Field)
      (os : Origins)
      → merge_map g root end dst p schema container o locs os ≡ (dst, os)
  unfolding merge_map
  merge_end dst p schema container os = refl

  pub merge_field :
      (k : Str) (v : Value) (src dst : Fields) (p : FieldPath) (schema : Option Schema)
      (container : Option Field) (os : Origins)
      → merge_map g root (field k v src) dst p schema container o locs os
        ≡ let a =
            merge_entry g root v (get k dst) (child p k) (member g schema container k) o locs os in
          merge_map g root src (put k a.0 dst) p schema container o locs a.1
  unfolding merge_map
  merge_field k v src dst p schema container os = refl

  -- What a key holds after the merge: the value that it had, or what `merge_entry` makes of it.
  abbrev pub merged_at : Option Value → Option Value → FieldPath → Option Field → Option Value
  merged_at none old p f = old
  merged_at (some v) old p f = some (merge_entry g root v old p f o locs []).0

  -- With the keys of the layer in order, a key holds after the merge what merging its own entry
  -- gives, if the layer has the key, and otherwise what it held before; the other entries do not
  -- matter.
  pub get-merge_map :
      (k : Str) (src dst : Fields) (p : FieldPath) (schema : Option Schema)
      (container : Option Field) (os : Origins)
      → IsSorted src
      → get k (merge_map g root src dst p schema container o locs os).0
        ≡ merged_at (get k src) (get k dst) (child p k) (member g schema container k)
  get-merge_map k end dst p schema container os s = unfold merge_map get in refl
  get-merge_map k (field j v src) dst p schema container os s =
      let f = member g schema container j in
      let a = merge_entry g root v (get j dst) (child p j) f o locs os in
      let later = get-merge_map k src (put j a.0 dst) p schema container a.1 s.1 in
      elim (Bool-cases (str_eq j k)) [
        | inl hit ↦
            let e = (str_eq_iff j k).0 hit in
            rw get_field (
              rw (hit, merge_field)
                (later
                  ∙ rw (get-put, hit, get_below k src (rw e at s.0))
                      (ap some (rw (← e) (same_entry v (get j dst) (child p j) f os [])))))
        | inr miss ↦ rw (get_field, miss, merge_field) (later ∙ rw (get-put, miss) refl)
      ]
