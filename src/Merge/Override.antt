-- ===== src/Merge/Override.antt =====
-- What wins: the values that a layer sets, and what it leaves alone.
use mathlib.Core.Option.{some-injective}
use xconf.Prelude.{◌≡◌, ap, sym, ◌∙◌, inl, inr, Option, none, some, [], ◌∷◌, Option-cases}
use xconf.Text.{Str}
use xconf.Text.Dict.{Dict}
use xconf.Pointer.{FieldPath, child}
use xconf.Value.{Value, plain, obj, Fields, get, as_map}
use xconf.Value.Ordered.{IsOrdered, AllOrdered, AllOrdered-IsSorted, get-IsOrdered, get_path}
use xconf.Schema.{Getters, member, union_of, object_schema}
use xconf.Layer.{Location, Origin}
use xconf.Merge.{Origins, add, merge_target, replace_entry, merge_entry, merge_map}
use xconf.Merge.Values.{entry_merged, entry_replaced, entry_other, get-merge_map}

pub get_path_absent :
    (k : Str) (p : FieldPath) (m : Fields) → get k m ≡ none → get_path (k ∷ p) (obj plain m) ≡ none
unfolding get_path
get_path_absent k p m e = rw (e, get_path)

pub get_path_step :
    (k : Str) (p : FieldPath) (m : Fields) (w : Value)
    → get k m ≡ some w
    → get_path (k ∷ p) (obj plain m) ≡ get_path p w
unfolding get_path
get_path_step k p m w e = rw (e, get_path)

-- A path through an object goes on through the member of its first key.
get_path-obj :
    (k : Str) (p : FieldPath) (m : Fields) (v : Value)
    → get_path (k ∷ p) (obj plain m) ≡ some v
    → (w : Value) × (get k m ≡ some w) × (get_path p w ≡ some v)
unfolding get_path as_map
get_path-obj k p m v e = elim (Option-cases (get k m)) [
  | inl absent ↦ cc (e, get_path_absent k p m absent)
  | inr (w, there) ↦ (w, there, sym (get_path_step k p m w there) ∙ e)
]

module _ {Schema Field : Type 0} (g : Getters Schema Field) (root : Schema) (o : Origin)
    (locs : Dict Location) where
  wins_entry :
      (p : FieldPath) (w v : Value) (old : Option Value) (q : FieldPath) (f : Option Field)
      (os : Origins)
      → IsOrdered w
      → as_map v ≡ none
      → get_path p w ≡ some v
      → get_path p (merge_entry g root w old q f o locs os).0 ≡ some v
  wins_entry [] w v old q f os ordered scalar e =
      rw
        (entry_other g root o locs old q f os w
          (unfold get_path in rw (some-injective w v e) scalar))
        (unfold replace_entry get_path in e)
  wins_entry (k ∷ p) (obj plain upper) v old q f os ordered scalar e =
      elim (Option-cases (merge_target (union_of g f) old upper)) [
        | inl apart ↦
            rw (entry_replaced g root o locs old q f os upper apart) (unfold replace_entry in e)
        | inr (lower, joined) ↦
            let (w, there, rest) = get_path-obj k p upper v e in
            rw (entry_merged g root o locs old q f os upper lower joined) (
              get_path_step k p _ _ (
                get-merge_map g root o locs k upper lower q (object_schema g root f lower) f
                  (add q o locs os) (AllOrdered-IsSorted upper ordered)
                ∙ rw there)
              ∙ wins_entry p w v (get k lower) (child q k)
                  (member g (object_schema g root f lower) f k) []
                  (get-IsOrdered k upper w ordered there) scalar rest)
      ]
  wins_entry (k ∷ p) w v old q f os ordered scalar e = unfold get_path in cc

  -- Every value other than an object that a well-formed layer sets at a path is what the merged
  -- values hold at that path, whatever the layers below hold and whatever the schema says.
  pub layer_wins :
      (src dst : Fields) (p : FieldPath) (v : Value) (schema : Option Schema) (os : Origins)
      → AllOrdered src
      → as_map v ≡ none
      → get_path p (obj plain src) ≡ some v
      → get_path p (obj plain (merge_map g root src dst [] schema none o locs os).0) ≡ some v
  layer_wins src dst [] v schema os ordered scalar e =
      unfold get_path as_map in cc (ap as_map (some-injective (obj plain src) v e))
  layer_wins src dst (k ∷ p) v schema os ordered scalar e =
      let (w, there, rest) = get_path-obj k p src v e in
      get_path_step k p _ _ (
        get-merge_map g root o locs k src dst [] schema none os (AllOrdered-IsSorted src ordered)
        ∙ rw there)
      ∙ wins_entry p w v (get k dst) (child [] k) (member g schema none k) []
          (get-IsOrdered k src w ordered there) scalar rest
