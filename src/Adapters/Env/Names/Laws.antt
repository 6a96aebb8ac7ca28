-- ===== src/Adapters/Env/Names/Laws.antt =====
-- The walk of a schema ends, also where schemas refer to each other in a circle.
use mathlib.Core.Path.{subst}
use xconf.Prelude.{
  ℕ, zero, suc, ◌+◌, ◌≤◌, ◌<◌, ◌≡◌, ◌≢◌, ◌↔◌, refl, sym, inl, inr, Bool, true, false, some, List,
  [], ◌∷◌, ◌++◌, length, arith, All, Bool-cases, Option-cases, if◌then◌else◌,
}
use Prim.Native.Nat.{Ordering}
use xconf.Text.{Str, str_compare}
use xconf.Text.Dict.{Dict}
use xconf.Text.Sort.{place, by_key}
use xconf.Pointer.{FieldPath}
use xconf.Error.{Result, ok, err}
use xconf.Schema.{Getters, OneOf}
use xconf.Adapters.Env.{Unicode, Source}
use xconf.Adapters.Env.Names.{
  Bindings, Walk, out_of_fuel, ended, after, below, on_stack, walk_variants, variants_of,
  enter_below, walk_field, walk_fields, visit,
}

ended_apart : (r : Result Bindings) → ended r ≢ out_of_fuel
ended_apart r h = cc

ended_with : (w : Walk) → w ≢ out_of_fuel → (r : Result Bindings) × (w ≡ ended r)
ended_with out_of_fuel n = absurd (n refl)
ended_with (ended r) n = (r, refl)

after_ends :
    (w : Walk) (f : Bindings → Walk)
    → w ≢ out_of_fuel
    → ((b : Bindings) → f b ≢ out_of_fuel)
    → after w f ≢ out_of_fuel
unfolding after
after_ends out_of_fuel f n m h = n refl
after_ends (ended (err e)) f n m h = cc
after_ends (ended (ok b)) f n m h = m b h

All-place {ℓ κ} :
    {V : Type ℓ} (P : V → Type κ) (k : Str) (v : V) (d : Dict V)
    → P v
    → All (λ e. P e.1) d
    → All (λ e. P e.1) (place k v d)
unfolding place
All-place P k v [] p a = (p, tt)
All-place {V} P k v ((j, w) ∷ d) p a =
    elim (str_compare k j)
      as (λ o.
        All (λ e. P e.1)
          (elim o as (λ x. Dict V) [
            | Ordering.gt ↦ (j, w) ∷ place k v d
            | _ ↦ (k, v) ∷ (j, w) ∷ d
          ])) [
            | Ordering.gt ↦ (a.0, All-place P k v d p a.1)
            | Ordering.lt ↦ (p, a)
            | Ordering.eq ↦ (p, a)
          ]

All-by_key {ℓ κ} :
    {V : Type ℓ} (P : V → Type κ) (d : Dict V) → All (λ e. P e.1) d → All (λ e. P e.1) (by_key d)
unfolding by_key
All-by_key P [] a = tt
All-by_key P ((k, v) ∷ d) a = All-place P k v (by_key d) a.0 (All-by_key P d a.1)

module _ {Schema Field : Type 0} (g : Getters Schema Field) (same : Schema → Schema → Bool)
    (u : Unicode) (s : Source) (root : Schema)
    (identity : (a b : Schema) → (same a b ≡ true) ↔ (a ≡ b)) (all : List Schema) where
  abbrev Known : Schema → Type 0
  Known sc = on_stack g same u s root sc all ≡ true

  abbrev On : Schema → List Schema → Bool
  On sc stack = on_stack g same u s root sc stack

  -- The schemas of a list that are not on the stack.
  abbrev left : List Schema → List Schema → ℕ
  left [] stack = 0
  left (x ∷ xs) stack = (if On x stack then 0 else 1) + left xs stack

  left_le : (xs stack : List Schema) (sc : Schema) → left xs (sc ∷ stack) ≤ left xs stack
  unfolding on_stack
  left_le [] stack sc = omega arith
  left_le (x ∷ xs) stack sc = ground (arith, left_le xs stack sc)

  left_lt :
      (xs stack : List Schema) (sc : Schema)
      → On sc xs ≡ true
      → On sc stack ≡ false
      → left xs (sc ∷ stack) < left xs stack
  unfolding on_stack
  left_lt [] stack sc h n = cc
  left_lt (x ∷ xs) stack sc h n = elim (Bool-cases (same sc x)) [
    | inl e ↦
        let same_one = (identity sc x).0 e in
        rw ((identity x sc).1 (sym same_one), subst (λ y. On y stack ≡ false) same_one n)
          (ground (arith, left_le xs stack sc))
    | inr e ↦ ground (arith, left_lt xs stack sc (rw e at h) n)
  ]

  -- Each schema that a field refers to, or has among its variants, is one of `all`.
  pub record IsClosed : Type 0 where
    pub refers : (f : Field) (sc : Schema) → below g same u s root f ≡ some sc → Known sc
    pub variants :
        (f : Field) (union : OneOf Schema)
        → g.one_of f ≡ some union
        → All (λ e. Known e.1) union.variants

  module _ (closed : IsClosed) (enter : Schema → FieldPath → Bindings → Walk)
      (enters : (sc : Schema) (p : FieldPath) (b : Bindings)
        → Known sc
        → enter sc p b ≢ out_of_fuel) where
    walk_variants_ends :
        (vs : Dict Schema) (p : FieldPath) (b : Bindings)
        → All (λ e. Known e.1) vs
        → walk_variants g same u s root enter vs p b ≢ out_of_fuel
    unfolding walk_variants
    walk_variants_ends [] p b k h = cc
    walk_variants_ends ((key, sc) ∷ vs) p b k h =
        after_ends (enter sc p b) (walk_variants g same u s root enter vs p) (enters sc p b k.0)
          (λ c. walk_variants_ends vs p c k.1) h

    variants_Known : (f : Field) → All (λ e. Known e.1) (variants_of g same u s root (g.one_of f))
    variants_Known f = elim (Option-cases (g.one_of f)) [
      | inl e ↦ subst (λ o. All (λ x. Known x.1) (variants_of g same u s root o)) (sym e) tt
      | inr (union, e) ↦
          subst (λ o. All (λ x. Known x.1) (variants_of g same u s root o)) (sym e)
            (All-by_key Known union.variants (closed.variants f union e))
    ]

    enter_below_ends :
        (f : Field) (p : FieldPath) (b : Bindings)
        → enter_below g same u s root enter (below g same u s root f) p b ≢ out_of_fuel
    enter_below_ends f p b h = elim (Option-cases (below g same u s root f)) [
      | inl e ↦ cc (rw (e, enter_below) at h)
      | inr (sc, e) ↦ enters sc p b (closed.refers f sc e) (rw (e, enter_below) at h)
    ]

    walk_field_ends :
        (f : Field) (p : FieldPath) (b : Bindings)
        → walk_field g same u s root enter f p b ≢ out_of_fuel
    unfolding walk_field
    walk_field_ends f p b h =
        after_ends _ _ (ended_apart _)
          (λ bound. after_ends _ _ (enter_below_ends f p bound) (λ c.
            walk_variants_ends (variants_of g same u s root (g.one_of f)) p c (variants_Known f)))
          h

    walk_fields_ends :
        (fs : List Field) (path : FieldPath) (b : Bindings)
        → walk_fields g same u s root enter fs path b ≢ out_of_fuel
    unfolding walk_fields
    walk_fields_ends [] path b h = cc
    walk_fields_ends (f ∷ fs) path b h = elim (Bool-cases (g.computed f)) [
      | inl e ↦ walk_fields_ends fs path b (rw e at h)
      | inr e ↦
          after_ends _ _ (walk_field_ends f (path ++ g.name f ∷ []) b) (walk_fields_ends fs path)
            (rw e at h)
    ]

  visit_ends :
      (closed : IsClosed) (fuel : ℕ) (stack : List Schema) (sc : Schema) (path : FieldPath)
      (b : Bindings)
      → Known sc
      → left all stack < fuel
      → visit g same u s root fuel stack sc path b ≢ out_of_fuel
  unfolding visit
  visit_ends closed zero stack sc path b k m h = omega (arith, m)
  visit_ends closed (suc fuel) stack sc path b k m h = elim (Bool-cases (On sc stack)) [
    | inl e ↦ cc (rw e at h)
    | inr e ↦
        walk_fields_ends closed (visit g same u s root fuel (sc ∷ stack))
          (λ t p c known.
            visit_ends closed fuel (sc ∷ stack) t p c known
              (omega (arith, left_lt all stack sc k e, m)))
          (g.fields sc) path b (rw e at h)
  ]

  left_nil : (xs : List Schema) → left xs [] ≡ length xs
  unfolding on_stack
  left_nil [] = refl
  left_nil (x ∷ xs) = omega (arith, left_nil xs)

  -- Where `same` tells whether two schemas are one, and the root and all schemas that fields and variants
  -- refer to are among finitely many, however they refer to each other: the walk of the root ends, with
  -- fuel of at least one more than their number.
  pub visit-length :
      IsClosed
      → Known root
      → (fuel : ℕ) → length all < fuel
      → (r : Result Bindings) × (visit g same u s root fuel [] root [] [] ≡ ended r)
  visit-length closed k fuel m =
      ended_with (visit g same u s root fuel [] root [] [])
        (visit_ends closed fuel [] root [] [] k (omega (arith, left_nil all, m)))
