-- ===== src/Runtime/Changes/Depth.antt =====
-- The fuel of the walk.
use xconf.Prelude.{
  ℕ, zero, suc, ◌+◌, ◌≤◌, ◌<◌, ◌≡◌, refl, Option, none, some, List, [], ◌∷◌, All, arith, length,
  ◌==◌, Bool-cases, Option-cases, inl, inr,
}
use xconf.Text.{Str}
use xconf.Text.Dict.{Dict, lookup}
use xconf.Text.Decimal.{itoa}
use xconf.Pointer.{FieldPath, child}
use xconf.Runtime.Changes.{
  Tree, same_value, struct_of, list_of, add_keys, walk_keys, walk_items, walk_lists, walk_values,
  walk, changed_paths,
}

-- The depth of a pointer that may be nil.
abbrev height : {V : Type 0} → (V → ℕ) → Option V → ℕ
height depth none = 0
height depth (some v) = depth v

-- A struct is deeper than nothing and than its members, and a list than its items.
pub record IsDepth {V : Type 0} (t : Tree V) (depth : V → ℕ) : Type 0 where
  pub members :
      (v : V) (m : Dict V) → t.fields v ≡ some m → (k : Str) → height depth (lookup k m) < depth v
  pub parts : (v : V) (l : List V) → t.items v ≡ some l → All (λ w. depth w < depth v) l

module _ {V : Type 0} (t : Tree V) (depth : V → ℕ) (is_depth : IsDepth t depth) where
  module _ (h : ℕ) (f g : Option V → Option V → FieldPath → List FieldPath)
      (agree : (c d : Option V) (q : FieldPath) → height depth c < h → f c d q ≡ g c d q) where
    walk_keys-agree :
        (ks : List Str) (am bm : Dict V) (p : FieldPath)
        → ((k : Str) → height depth (lookup k am) < h)
        → walk_keys t f ks am bm p ≡ walk_keys t g ks am bm p
    unfolding walk_keys
    walk_keys-agree [] am bm p below = refl
    walk_keys-agree (k ∷ ks) am bm p below =
        cc (
          agree (lookup k am) (lookup k bm) (child p k) (below k),
          walk_keys-agree ks am bm p below,
        )

    walk_items-agree :
        (i : ℕ) (as' bs : List V) (p : FieldPath)
        → All (λ w. depth w < h) as'
        → walk_items t f i as' bs p ≡ walk_items t g i as' bs p
    unfolding walk_items
    walk_items-agree i [] bs p below = refl
    walk_items-agree i (x ∷ as') [] p below = refl
    walk_items-agree i (x ∷ as') (y ∷ bs) p below = cc (
      agree (some x) (some y) (child p (itoa i)) below.0,
      walk_items-agree (i + 1) as' bs p below.1,
    )

  module _ (a : Option V) (f g : Option V → Option V → FieldPath → List FieldPath)
      (agree : (c d : Option V) (q : FieldPath)
        → height depth c < height depth a
        → f c d q ≡ g c d q) where
    items_below :
        (o : Option V) (l : List V) → list_of t o ≡ some l → All (λ w. depth w < height depth o) l
    items_below none l e = cc
    items_below (some v) l e = is_depth.parts v l e

    members_below :
        (o : Option V) (m : Dict V)
        → struct_of t o ≡ some m
        → (k : Str) → height depth (lookup k m) < height depth o
    members_below none m e k = cc
    members_below (some v) m e k = is_depth.members v m e k

    walk_lists-agree : (b : Option V) (p : FieldPath) → walk_lists t f a b p ≡ walk_lists t g a b p
    unfolding walk_lists
    walk_lists-agree b p = elim (Option-cases (list_of t a)) [
      | inl e ↦ rw (e, walk_lists) refl
      | inr (as', e) ↦ elim (Option-cases (list_of t b)) [
        | inl d ↦ rw (e, d, walk_lists) refl
        | inr (bs, d) ↦ elim (Bool-cases (length as' == length bs)) [
          | inl eq ↦
              rw (e, d, eq, walk_lists)
                (walk_items-agree (height depth a) f g agree 0 as' bs p (items_below a as' e))
          | inr ne ↦ rw (e, d, ne, walk_lists) refl
        ]
      ]
    ]

    walk_values-agree :
        (b : Option V) (p : FieldPath) → walk_values t f a b p ≡ walk_values t g a b p
    unfolding walk_values
    walk_values-agree b p = elim (Option-cases (struct_of t a)) [
      | inl e ↦ rw (e, walk_values) (walk_lists-agree b p)
      | inr (am, e) ↦ elim (Option-cases (struct_of t b)) [
        | inl d ↦ rw (e, d, walk_values) (walk_lists-agree b p)
        | inr (bm, d) ↦
            rw (e, d, walk_values)
              (walk_keys-agree (height depth a) f g agree (add_keys t am (add_keys t bm [])) am bm p
                (members_below a am e))
      ]
    ]

  step_agree :
      (n m : ℕ) (a b : Option V) (p : FieldPath)
      → ((c d : Option V) (q : FieldPath)
          → height depth c < height depth a
          → walk t n c d q ≡ walk t m c d q)
      → walk t (suc n) a b p ≡ walk t (suc m) a b p
  unfolding walk
  step_agree n m a b p agree = elim (Bool-cases (same_value t a b)) [
    | inl e ↦ rw e refl
    | inr e ↦ rw e (walk_values-agree a (walk t n) (walk t m) agree b p)
  ]

  children_agree :
      (n m : ℕ) (a : Option V)
      → height depth a ≤ n
      → height depth a ≤ m
      → (c d : Option V) (q : FieldPath) → height depth c < height depth a
      → walk t n c d q ≡ walk t m c d q
  children_agree zero m a i j c d q l = ground (arith, i, l)
  children_agree (suc n) zero a i j c d q l = ground (arith, j, l)
  children_agree (suc n) (suc m) a i j c d q l =
      step_agree n m c d q (children_agree n m c (omega (arith, i, l)) (omega (arith, j, l)))

  -- For a measure of depth that falls from every struct and list to its parts, the depth of the old
  -- value is enough fuel: with more, `changedPaths` reports the same paths.
  changed_paths-enough :
      (fuel : ℕ) (a b : V)
      → depth a ≤ fuel
      → changed_paths t fuel a b ≡ changed_paths t (depth a) a b
  unfolding changed_paths
  changed_paths-enough fuel a b h =
      step_agree fuel (depth a) (some a) (some b) []
        (children_agree fuel (depth a) (some a) h (omega arith))
