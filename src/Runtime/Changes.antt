-- ===== src/Runtime/Changes.antt =====
-- `changedPaths` of runtime.go, over the values of schemapb, which are a parameter.
pub mod Laws
pub mod Depth
use Prim.Native.Nat.{Ordering}
use xconf.Prelude.{
  ℕ, zero, suc, ◌+◌, Bool, true, false, Option, none, some, List, [], ◌∷◌, ◌++◌, length, ◌==◌,
  if◌then◌else◌,
}
use xconf.Text.{Str, str_compare}
use xconf.Text.Dict.{Dict, lookup}
use xconf.Text.Decimal.{itoa}
use xconf.Pointer.{FieldPath, child}

-- What the code asks of a value that is not nil: proto.Equal, the fields of a struct and the items
-- of a list.
pub record Tree (V : Type 0) : Type 0 where
  pub equal : V → V → Bool
  pub fields : V → Option (Dict V)
  pub items : V → Option (List V)

-- The keys in order, each once.
unfoldable pub add_key : Str → List Str → List Str
unfolding str_compare
add_key k [] = k ∷ []
add_key k (j ∷ ks) =
    let later = j ∷ add_key k ks in
    elim (str_compare k j) [ Ordering.lt ↦ k ∷ j ∷ ks | Ordering.gt ↦ later | _ ↦ j ∷ ks ]

module _ {V : Type 0} (t : Tree V) where
  unfoldable pub add_keys : Dict V → List Str → List Str
  unfolding add_key
  add_keys [] ks = ks
  add_keys ((k, v) ∷ m) ks = add_key k (add_keys m ks)

  -- A nil pointer equals only a nil pointer, and is neither a struct nor a list.
  abbrev pub same_value : Option V → Option V → Bool
  same_value none none = true
  same_value (some a) (some b) = t.equal a b
  same_value _ _ = false

  abbrev pub struct_of : Option V → Option (Dict V)
  struct_of none = none
  struct_of (some v) = t.fields v

  abbrev pub list_of : Option V → Option (List V)
  list_of none = none
  list_of (some v) = t.items v

  -- The loop over the keys of both structs, where `walk` is the walk one level deeper.
  unfoldable pub walk_keys :
      (Option V → Option V → FieldPath → List FieldPath)
      → List Str
      → Dict V
      → Dict V
      → FieldPath
      → List FieldPath
  unfolding lookup child
  walk_keys walk [] a b p = []
  walk_keys walk (k ∷ ks) a b p =
      walk (lookup k a) (lookup k b) (child p k) ++ walk_keys walk ks a b p

  -- The loop over the items of two lists of one length.
  unfoldable pub walk_items :
      (Option V → Option V → FieldPath → List FieldPath)
      → ℕ
      → List V
      → List V
      → FieldPath
      → List FieldPath
  unfolding itoa child
  walk_items walk i (a ∷ as') (b ∷ bs) p =
      walk (some a) (some b) (child p (itoa i)) ++ walk_items walk (i + 1) as' bs p
  walk_items walk i _ _ p = []

  -- Two lists of one length, compared item by item, or a change of the whole value.
  unfoldable pub walk_lists :
      (Option V → Option V → FieldPath → List FieldPath)
      → Option V
      → Option V
      → FieldPath
      → List FieldPath
  unfolding walk_items
  walk_lists walk a b p = elim (list_of a) [
    | none ↦ p ∷ []
    | some as' ↦ elim (list_of b) [
      | none ↦ p ∷ []
      | some bs ↦ if length as' == length bs then walk_items walk 0 as' bs p else p ∷ []
    ]
  ]

  unfoldable pub walk_values :
      (Option V → Option V → FieldPath → List FieldPath)
      → Option V
      → Option V
      → FieldPath
      → List FieldPath
  unfolding walk_lists walk_keys add_keys
  walk_values walk a b p = elim (struct_of a) [
    | none ↦ walk_lists walk a b p
    | some am ↦ elim (struct_of b) [
      | none ↦ walk_lists walk a b p
      | some bm ↦ walk_keys walk (add_keys am (add_keys bm [])) am bm p
    ]
  ]

  -- walk, on a fuel that bounds the depth of the values.
  unfoldable pub walk : ℕ → Option V → Option V → FieldPath → List FieldPath
  unfolding walk_values
  walk zero a b p = []
  walk (suc n) a b p =
      let deeper = walk n in if same_value a b then [] else walk_values deeper a b p

  -- changedPaths, where the values have at most the given depth.
  unfoldable pub changed_paths : ℕ → V → V → List FieldPath
  unfolding walk
  changed_paths depth a b = walk (suc depth) (some a) (some b) []
