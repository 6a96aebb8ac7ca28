-- ===== src/Adapters/Yaml/Laws.antt =====
-- The budget of the YAML decoder bounds what it makes, also where aliases repeat a node.
use xconf.Prelude.{
  ℕ, zero, suc, ◌+◌, ◌≤◌, ◌≡◌, refl, inl, inr, true, not, List, [], ◌∷◌, ◌++◌, is_some, arith,
  Bool-cases,
}
use xconf.Text.{Str, str, str_eq}
use xconf.Pointer.{FieldPath}
use xconf.Error.{ok, ◌>>=◌, Yields, Result-cases, Yields-map}
use xconf.Value.{
  Value, Items, nil, cons, null, time, duration, number, bytes, nil_map, keyed_map, array, nil_list,
  text, bool, int, uint, float, Fields, end, field, obj, list, put, get,
}
use xconf.Layer.{Location}
use xconf.Text.Decimal.{itoa}
use xconf.Text.Dict.{Dict}
use xconf.Adapters.Yaml.{
  Kind, mapping, sequence, alias, scalar, other, Node, Library, Walked, Enter, scalar_value,
  number_text, is_scalar, walk_pairs, walk_items, walk_kind, walk,
}

-- The values within a value, itself among them.
mutual
  pub size : Value → ℕ
  size (obj s m) = suc (size_fields m)
  size (list s is) = suc (size_items is)
  size v = 1

  pub size_items : Items → ℕ
  size_items nil = 0
  size_items (cons v is) = size v + size_items is

  pub size_fields : Fields → ℕ
  size_fields end = 0
  size_fields (field k v m) = size v + size_fields m

size_fields-put :
    (k : Str) (v : Value) (m : Fields) → size_fields (put k v m) ≤ size v + size_fields m
unfolding put size_fields
size_fields-put k v end = omega arith
size_fields-put k v (field j w m) = let later = size_fields-put k v m in ground (arith, later)

size-scalar : (v : Value) → is_scalar v ≡ true → size v ≡ 1
unfolding size is_scalar
size-scalar null h = refl
size-scalar (time t) h = refl
size-scalar (duration sign n) h = refl
size-scalar (number raw) h = refl
size-scalar (bytes raw) h = refl
size-scalar nil_map h = refl
size-scalar keyed_map h = refl
size-scalar (array is) h = refl
size-scalar nil_list h = refl
size-scalar (text s raw) h = refl
size-scalar (bool s b) h = refl
size-scalar (int s sign n) h = refl
size-scalar (uint s n) h = refl
size-scalar (float s n) h = refl
size-scalar Value.other h = refl
size-scalar (obj s m) h = cc
size-scalar (list s is) h = cc

abbrev pub Charges : Enter → Type 0
Charges enter =
    (n : ℕ) (p : FieldPath) (locs : Dict Location) (b : ℕ)
    → Yields (λ w. size w.value + w.budget ≤ b) (enter n p locs b)

module _ (lib : Library) (store : ℕ → Node) (enter : Enter) (charges : Charges enter) where
  walk_pairs-size :
      (ns : List ℕ) (p : FieldPath) (m : Fields) (locs : Dict Location) (b : ℕ)
      → Yields
          (λ w. size_fields w.value + w.budget ≤ size_fields m + b)
          (walk_pairs lib store enter ns p m locs b)
  unfolding walk_pairs
  walk_pairs-size [] p m locs b = omega arith
  walk_pairs-size (k ∷ []) p m locs b =
      elim (Bool-cases (not (str_eq (store k).tag (str "!!str")))) [
        | inl e ↦ rw e tt
        | inr e ↦ elim (Bool-cases (is_some (get (store k).value m))) [
          | inl d ↦ rw (e, d) tt
          | inr d ↦ rw (e, d) tt
        ]
      ]
  walk_pairs-size (k ∷ v ∷ rest) p m locs b =
      elim (Bool-cases (not (str_eq (store k).tag (str "!!str")))) [
        | inl e ↦ rw (e, walk_pairs) tt
        | inr e ↦ elim (Bool-cases (is_some (get (store k).value m))) [
          | inl d ↦ rw (e, d, walk_pairs) tt
          | inr d ↦ elim (Result-cases (enter v (p ++ (store k).value ∷ []) locs b)) [
            | inr (x, c) ↦ rw (e, d, c, walk_pairs) tt
            | inl (w, c) ↦
                let paid = rw c at (charges v (p ++ (store k).value ∷ []) locs b) in
                let grown = size_fields-put (store k).value w.value m in
                rw (e, d, c, walk_pairs)
                  (Yields-map
                    (λ x.
                      size_fields x.value + x.budget
                      ≤ size_fields (put (store k).value w.value m) + w.budget)
                    (λ x. size_fields x.value + x.budget ≤ size_fields m + b)
                    (walk_pairs lib store enter rest p (put (store k).value w.value m) w.locations
                      w.budget)
                    (λ x h. omega (arith, h, paid, grown))
                    (walk_pairs-size rest p (put (store k).value w.value m) w.locations w.budget))
          ]
        ]
      ]

  walk_items-size :
      (i : ℕ) (ns : List ℕ) (p : FieldPath) (locs : Dict Location) (b : ℕ)
      → Yields (λ w. size_items w.value + w.budget ≤ b) (walk_items lib store enter i ns p locs b)
  unfolding walk_items size_items
  walk_items-size i [] p locs b = omega arith
  walk_items-size i (n ∷ ns) p locs b = elim (Result-cases (enter n (p ++ itoa i ∷ []) locs b)) [
    | inr (x, c) ↦ rw (c, walk_items) tt
    | inl (w, c) ↦
        elim (Result-cases (walk_items lib store enter (suc i) ns p w.locations w.budget)) [
          | inr (x, d) ↦ rw (c, walk_items) (rw d tt)
          | inl (ws, d) ↦
              let paid = rw c at (charges n (p ++ itoa i ∷ []) locs b) in
              let others = rw d at (walk_items-size (suc i) ns p w.locations w.budget) in
              rw (c, walk_items) (rw d (omega (arith, paid, others)))
        ]
  ]

  scalar-size :
      (n : Node) (locs : Dict Location) (b : ℕ)
      → Yields {A = Walked Value}
          (λ w. size w.value + w.budget ≤ suc b)
          (scalar_value lib n >>= λ v. ok (record { value = v; locations = locs; budget = b }))
  unfolding scalar_value size
  scalar-size n locs b = elim (Bool-cases (str_eq n.tag (str "!!float"))) [
    | inl e ↦ elim (Bool-cases (lib.json_valid (number_text n.value))) [
      | inl d ↦ rw (e, d, scalar_value) (omega arith)
      | inr d ↦ rw (e, d, scalar_value) tt
    ]
    | inr e ↦ elim (Result-cases (lib.scalar n)) [
      | inr (x, c) ↦ rw (e, c, scalar_value) tt
      | inl (v, c) ↦ elim (Bool-cases (is_scalar v)) [
        | inr d ↦ rw (e, c, d, scalar_value) tt
        | inl d ↦ rw (e, c, d, scalar_value) (omega (arith, size-scalar v d))
      ]
    ]
  ]

  walk_kind-size :
      (kind : Kind) (n : Node) (p : FieldPath) (locs : Dict Location) (b : ℕ)
      → Yields (λ w. size w.value + w.budget ≤ suc b) (walk_kind lib store enter kind n p locs b)
  unfolding walk_kind size size_fields
  walk_kind-size mapping n p locs b =
      elim (Result-cases (walk_pairs lib store enter n.content p end locs b)) [
        | inr (x, c) ↦ rw c tt
        | inl (w, c) ↦ rw c (omega (arith, rw c at (walk_pairs-size n.content p end locs b)))
      ]
  walk_kind-size sequence n p locs b =
      elim (Result-cases (walk_items lib store enter 0 n.content p locs b)) [
        | inr (x, c) ↦ rw c tt
        | inl (w, c) ↦ rw c (omega (arith, rw c at (walk_items-size 0 n.content p locs b)))
      ]
  walk_kind-size alias n p locs b =
      Yields-map (λ w. size w.value + w.budget ≤ b) (λ w. size w.value + w.budget ≤ suc b)
        (enter n.target p locs b) (λ w h. omega (arith, h)) (charges n.target p locs b)
  walk_kind-size scalar n p locs b = scalar-size n locs b
  walk_kind-size other n p locs b = tt

-- Whatever the nodes refer to, also themselves: a value that the walk makes has no more values within it
-- than the budget it used up.
pub walk-size : (lib : Library) (store : ℕ → Node) (levels : ℕ) → Charges (walk lib store levels)
unfolding walk
walk-size lib store levels n p locs zero = tt
walk-size lib store zero n p locs (suc b) = tt
walk-size lib store (suc levels) n p locs (suc b) =
    walk_kind-size lib store (walk lib store levels) (walk-size lib store levels) (store n).kind
      (store n) p _ b
