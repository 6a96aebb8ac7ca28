-- ===== src/Runtime/Changes/Laws.antt =====
-- Which paths `changedPaths` reports.
use mathlib.Core.Path.{subst}
use xconf.Prelude.{
  ℕ, zero, suc, ◌+◌, ◌≡◌, refl, ap, sym, ◌∙◌, false, Option, some, List, [], ◌∷◌, ◌++◌, All, length,
  length-append, append_assoc, ◌==◌, Bool-cases, Option-cases, inl, inr,
}
use xconf.Text.{Str}
use xconf.Text.Dict.{Dict, lookup}
use xconf.Text.Decimal.{itoa}
use xconf.Pointer.{FieldPath, child}
use xconf.Runtime.Changes.{
  Tree, same_value, struct_of, list_of, add_keys, walk_keys, walk_items, walk_lists, walk_values,
  walk, changed_paths,
}

All-append : {A : Type 0} (P : A → Type 0) (xs ys : List A) → All P xs → All P ys → All P (xs ++ ys)
All-append P [] ys a b = b
All-append P (x ∷ xs) ys a b = (a.0, All-append P xs ys a.1 b)

All-map :
    {A : Type 0} (P Q : A → Type 0) (xs : List A) → ((x : A) → P x → Q x) → All P xs → All Q xs
All-map P Q [] f a = tt
All-map P Q (x ∷ xs) f a = (f x a.0, All-map P Q xs f a.1)

module _ {V : Type 0} (t : Tree V) where
  -- From the path p and two values at it, the path q leads to two values that differ, through
  -- members of structs and items of lists that both sides have at the same place.
  pub data Differs (q : FieldPath) : FieldPath → Option V → Option V → Type 0 where
    here : {a b : Option V} → same_value t a b ≡ false → Differs q q a b
    by_key :
        {p : FieldPath} {a b : Option V} (k : Str) (am bm : Dict V)
        → struct_of t a ≡ some am
        → struct_of t b ≡ some bm
        → Differs q (child p k) (lookup k am) (lookup k bm)
        → Differs q p a b
    by_item :
        {p : FieldPath} {a b : Option V} (xs ys : List V) (x y : V) (xs' ys' : List V)
        → length xs ≡ length ys
        → list_of t a ≡ some (xs ++ x ∷ xs')
        → list_of t b ≡ some (ys ++ y ∷ ys')
        → Differs q (child p (itoa (length xs))) (some x) (some y)
        → Differs q p a b

  abbrev AllDiffer : FieldPath → Option V → Option V → List FieldPath → Type 0
  AllDiffer p a b = All (λ q. Differs q p a b)

  module _ (f : Option V → Option V → FieldPath → List FieldPath)
      (deeper : (a b : Option V) (p : FieldPath) → AllDiffer p a b (f a b p)) where
    walk_keys-AllDiffer :
        (ks : List Str) (a b : Option V) (am bm : Dict V) (p : FieldPath)
        → struct_of t a ≡ some am
        → struct_of t b ≡ some bm
        → AllDiffer p a b (walk_keys t f ks am bm p)
    unfolding walk_keys
    walk_keys-AllDiffer [] a b am bm p d e = tt
    walk_keys-AllDiffer (k ∷ ks) a b am bm p d e =
        All-append (λ q. Differs q p a b) (f (lookup k am) (lookup k bm) (child p k)) _
          (All-map (λ q. Differs q (child p k) (lookup k am) (lookup k bm)) (λ q. Differs q p a b) _
            (λ q h. by_key k am bm d e h) (deeper (lookup k am) (lookup k bm) (child p k)))
          (walk_keys-AllDiffer ks a b am bm p d e)

    walk_items-AllDiffer :
        (as' bs xs ys : List V) (a b : Option V) (p : FieldPath)
        → length xs ≡ length ys
        → list_of t a ≡ some (xs ++ as')
        → list_of t b ≡ some (ys ++ bs)
        → AllDiffer p a b (walk_items t f (length xs) as' bs p)
    unfolding walk_items
    walk_items-AllDiffer [] bs xs ys a b p l d e = tt
    walk_items-AllDiffer (x ∷ as') [] xs ys a b p l d e = tt
    walk_items-AllDiffer (x ∷ as') (y ∷ bs) xs ys a b p l d e =
        All-append (λ q. Differs q p a b) (f (some x) (some y) (child p (itoa (length xs)))) _
          (All-map (λ q. Differs q (child p (itoa (length xs))) (some x) (some y))
            (λ q. Differs q p a b) _ (λ q h. by_item xs ys x y as' bs l d e h)
            (deeper (some x) (some y) (child p (itoa (length xs)))))
          (subst (λ n. AllDiffer p a b (walk_items t f n as' bs p)) (length-append xs (x ∷ []))
            (walk_items-AllDiffer as' bs (xs ++ x ∷ []) (ys ++ y ∷ []) a b p
              (length-append xs (x ∷ []) ∙ ap (λ n. n + 1) l ∙ sym (length-append ys (y ∷ [])))
              (d ∙ ap some (sym (append_assoc xs (x ∷ []) as')))
              (e ∙ ap some (sym (append_assoc ys (y ∷ []) bs)))))

    walk_lists-AllDiffer :
        (a b : Option V) (p : FieldPath)
        → same_value t a b ≡ false
        → AllDiffer p a b (walk_lists t f a b p)
    unfolding walk_lists
    walk_lists-AllDiffer a b p h = elim (Option-cases (list_of t a)) [
      | inl e ↦ rw (e, walk_lists) (here h, tt)
      | inr (as', e) ↦ elim (Option-cases (list_of t b)) [
        | inl d ↦ rw (e, d, walk_lists) (here h, tt)
        | inr (bs, d) ↦ elim (Bool-cases (length as' == length bs)) [
          | inl eq ↦ rw (e, d, eq, walk_lists) (walk_items-AllDiffer as' bs [] [] a b p refl e d)
          | inr ne ↦ rw (e, d, ne, walk_lists) (here h, tt)
        ]
      ]
    ]

    walk_values-AllDiffer :
        (a b : Option V) (p : FieldPath)
        → same_value t a b ≡ false
        → AllDiffer p a b (walk_values t f a b p)
    unfolding walk_values
    walk_values-AllDiffer a b p h = elim (Option-cases (struct_of t a)) [
      | inl e ↦ rw (e, walk_values) (walk_lists-AllDiffer a b p h)
      | inr (am, e) ↦ elim (Option-cases (struct_of t b)) [
        | inl d ↦ rw (e, d, walk_values) (walk_lists-AllDiffer a b p h)
        | inr (bm, d) ↦
            rw (e, d, walk_values)
              (walk_keys-AllDiffer (add_keys t am (add_keys t bm [])) a b am bm p e d)
      ]
    ]

  walk-AllDiffer : (n : ℕ) (a b : Option V) (p : FieldPath) → AllDiffer p a b (walk t n a b p)
  unfolding walk
  walk-AllDiffer zero a b p = tt
  walk-AllDiffer (suc n) a b p = elim (Bool-cases (same_value t a b)) [
    | inl e ↦ rw e tt
    | inr h ↦ rw h (walk_values-AllDiffer (walk t n) (walk-AllDiffer n) a b p h)
  ]

  -- Every path that `changedPaths` reports leads to two values that differ, one in each snapshot,
  -- or to one value that the other snapshot lacks.
  pub changed_paths-Differs :
      (depth : ℕ) (a b : V) → All (λ q. Differs q [] (some a) (some b)) (changed_paths t depth a b)
  unfolding changed_paths
  changed_paths-Differs depth a b = walk-AllDiffer (suc depth) (some a) (some b) []
