-- ===== src/Merge/Untouched.antt =====
-- What a layer leaves alone: a path that its objects do not reach.
use mathlib.Core.Path.{subst}
use xconf.Prelude.{
  ◌≡◌, refl, ap, sym, ◌∙◌, ◌⊎◌, inl, inr, Option, none, some, [], ◌∷◌, arith, Option-cases,
}
use xconf.Text.{Str}
use xconf.Text.Dict.{Dict}
use xconf.Pointer.{FieldPath, child}
use xconf.Value.{Value, plain, named, obj, Fields, get, as_map}
use xconf.Value.Ordered.{IsOrdered, AllOrdered, AllOrdered-IsSorted, get-IsOrdered, get_path}
use xconf.Schema.{Getters, OneOf, member, union_of, object_schema}
use xconf.Layer.{Location, Origin}
use xconf.Merge.{Origins, add, merge_target, changes_variant, replace_entry, merge_entry, merge_map}
use xconf.Merge.Values.{entry_merged, entry_replaced, get-merge_map}
use xconf.Merge.Override.{get_path_step, get_path_absent}

-- The walk along the path ends at a key that an object of the value lacks.
abbrev pub IsUntouched : FieldPath → Value → Type 0
IsUntouched [] w = ⊥
IsUntouched (k ∷ p) w =
    (m : Fields) × (w ≡ obj plain m)
    × ((get k m ≡ none) ⊎ ((c : Value) × (get k m ≡ some c) × IsUntouched p c))

abbrev pub below : FieldPath → Option Value → Option Value
below p none = none
below p (some w) = get_path p w

-- What a path finds in a value that may be absent, one member further.
pub below-get :
    (k : Str) (p : FieldPath) (m : Fields) → get_path (k ∷ p) (obj plain m) ≡ below p (get k m)
below-get k p m = elim (Option-cases (get k m)) [
  | inl e ↦ rw e (get_path_absent k p m e)
  | inr (w, e) ↦ rw e (get_path_step k p m w e)
]

IsUntouched-none : (p : FieldPath) (w : Value) → IsUntouched p w → get_path p w ≡ none
IsUntouched-none [] w u = absurd u
IsUntouched-none (k ∷ p) w (m, e, inl absent) = rw e (get_path_absent k p m absent)
IsUntouched-none (k ∷ p) w (m, e, inr (c, there, u)) =
    rw e (get_path_step k p m c there ∙ IsUntouched-none p c u)

-- Without a union an object is merged exactly into an object.
target_none :
    {Schema : Type 0} (union : Option (OneOf Schema)) (old : Option Value) (upper : Fields)
    (k : Str) (p : FieldPath)
    → union ≡ none
    → merge_target union old upper ≡ none
    → below (k ∷ p) old ≡ none
unfolding merge_target changes_variant get_path
target_none union none upper k p u e = refl
target_none union (some v) upper k p u e = ground arith

pub target_some :
    {Schema : Type 0} (union : Option (OneOf Schema)) (old : Option Value) (upper lower : Fields)
    → merge_target union old upper ≡ some lower
    → old ≡ some (obj plain lower)
unfolding merge_target as_map
target_some union none upper lower e = cc
target_some union (some (obj plain m)) upper lower e = ground arith
target_some union (some (obj named m)) upper lower e = cc
target_some union (some _) upper lower e = cc

module _ {Schema Field : Type 0} (g : Getters Schema Field) (root : Schema) (o : Origin)
    (locs : Dict Location) (no_unions : (f : Field) → g.one_of f ≡ none) where
  no_union : (f : Option Field) → union_of g f ≡ none
  no_union none = refl
  no_union (some f) = no_unions f

  -- The claim about one key, from the claim about what the layer has there.
  map_untouched :
      (k : Str) (p : FieldPath)
      → ((w : Value) (old : Option Value) (q : FieldPath) (f : Option Field) (os : Origins)
          → IsOrdered w
          → IsUntouched p w
          → get_path p (merge_entry g root w old q f o locs os).0 ≡ below p old)
      → (upper lower : Fields) (q : FieldPath) (schema : Option Schema) (container : Option Field)
        (os : Origins)
      → AllOrdered upper
      → ((get k upper ≡ none) ⊎ ((c : Value) × (get k upper ≡ some c) × IsUntouched p c))
      → get_path (k ∷ p) (obj plain (merge_map g root upper lower q schema container o locs os).0)
        ≡ below p (get k lower)
  map_untouched k p rec upper lower q schema container os ordered (inl absent) =
      below-get k p _
      ∙ ap (below p) (
          rw absent at (
            get-merge_map g root o locs k upper lower q schema container os
              (AllOrdered-IsSorted upper ordered)))
  map_untouched k p rec upper lower q schema container os ordered (inr (c, there, u)) =
      below-get k p _
      ∙ ap (below p) (
          rw there at (
            get-merge_map g root o locs k upper lower q schema container os
              (AllOrdered-IsSorted upper ordered)))
      ∙ rec c (get k lower) (child q k) (member g schema container k) []
          (get-IsOrdered k upper c ordered there) u

  entry_untouched :
      (p : FieldPath) (w : Value) (old : Option Value) (q : FieldPath) (f : Option Field)
      (os : Origins)
      → IsOrdered w
      → IsUntouched p w
      → get_path p (merge_entry g root w old q f o locs os).0 ≡ below p old
  entry_untouched [] w old q f os ordered u = absurd u
  entry_untouched (k ∷ p) (obj plain upper) old q f os ordered (m, e, u) =
      elim (Option-cases (merge_target (union_of g f) old upper)) [
        | inl apart ↦ rw (entry_replaced g root o locs old q f os upper apart) (
            unfold replace_entry in
            IsUntouched-none (k ∷ p) (obj plain upper) (m, e, u)
            ∙ sym (target_none (union_of g f) old upper k p (no_union f) apart))
        | inr (lower, joined) ↦
            rw
              (
                entry_merged g root o locs old q f os upper lower joined,
                target_some (union_of g f) old upper lower joined,
              )
              (map_untouched k p (entry_untouched p) upper lower q (object_schema g root f lower) f
                  (add q o locs os) ordered
                  (subst
                    (λ (n : Fields).
                      (get k n ≡ none) ⊎ ((c : Value) × (get k n ≡ some c) × IsUntouched p c))
                    (cc) u)
                ∙ sym (below-get k p lower))
      ]
  entry_untouched (k ∷ p) (obj named upper) old q f os ordered (m, e, u) = cc
  entry_untouched (k ∷ p) w old q f os ordered (m, e, u) = cc

  -- In a schema without unions, a path that the objects of a well-formed layer do not reach reads
  -- after the merge as it did before, also where it found nothing.
  pub layer_leaves :
      (src dst : Fields) (p : FieldPath) (schema : Option Schema) (os : Origins)
      → AllOrdered src
      → IsUntouched p (obj plain src)
      → get_path p (obj plain (merge_map g root src dst [] schema none o locs os).0)
        ≡ get_path p (obj plain dst)
  layer_leaves src dst [] schema os ordered u = absurd u
  layer_leaves src dst (k ∷ p) schema os ordered (m, e, u) =
      map_untouched k p (entry_untouched p) src dst [] schema none os ordered (
        subst
          (λ (n : Fields). (get k n ≡ none) ⊎ ((c : Value) × (get k n ≡ some c) × IsUntouched p c))
          (cc) u)
      ∙ sym (below-get k p dst)
