-- ===== src/Value/Clone/Laws.antt =====
-- What `cloneInput` returns, and when it fails.
use Prim.Native.Nat.{max}
use xconf.Prelude.{ℕ, ◌+◌, ◌≤◌, ◌≡◌, inl, inr, arith, leb, ltb, if◌then◌else◌, Bool-cases}
use xconf.Error.{Result, ok, err, ◌>>=◌, deep_input, Yields}
use xconf.Value.{
  Shape, plain, named, Value, null, time, duration, number, bytes, obj, nil_map, keyed_map, list,
  array, nil_list, text, bool, int, uint, float, other, Items, nil, cons, Fields, end, field,
}
use xconf.Value.Clone.{clone, clone_items, clone_fields}

-- A value of the native tree: plain types only, and no nil map or list.
abbrev IsPlain : Shape → Type 0
IsPlain plain = Unit
IsPlain named = ⊥

abbrev mutual
  pub IsNative : Value → Type 0
  IsNative (obj s m) = IsPlain s × AllNative m
  IsNative nil_map = ⊥
  IsNative keyed_map = ⊥
  IsNative (list s l) = IsPlain s × EachNative l
  IsNative (array l) = ⊥
  IsNative nil_list = ⊥
  IsNative (text s t) = IsPlain s
  IsNative (bool s b) = IsPlain s
  IsNative (int s g n) = IsPlain s
  IsNative (uint s n) = IsPlain s
  IsNative (float s n) = IsPlain s
  IsNative other = ⊥
  IsNative _ = Unit

  pub EachNative : Items → Type 0
  EachNative nil = Unit
  EachNative (cons v l) = IsNative v × EachNative l

  pub AllNative : Fields → Type 0
  AllNative end = Unit
  AllNative (field k v m) = IsNative v × AllNative m

-- How deep maps and lists are nested: an empty one, like a scalar, adds nothing.
unfoldable mutual
  pub height : Value → ℕ
  height (obj s m) = height_fields m
  height (list s l) = height_items l
  height (array l) = height_items l
  height _ = 0

  pub height_items : Items → ℕ
  height_items nil = 0
  height_items (cons v l) = max (1 + height v) (height_items l)

  pub height_fields : Fields → ℕ
  height_fields end = 0
  height_fields (field k v m) = max (1 + height v) (height_fields m)

mutual
  unfolding clone

  native : (v : Value) (d : ℕ) → Yields IsNative (clone v d)
  native null d = ground arith
  native (time t) d = ground arith
  native (duration s n) d = ground arith
  native (number s) d = ground arith
  native (bytes s) d = ground arith
  native nil_map d = ground arith
  native keyed_map d = ground arith
  native nil_list d = ground arith
  native (text s t) d = ground arith
  native (bool s b) d = ground arith
  native (int s g n) d = ground arith
  native (uint s n) d = ground arith
  native (float s n) d = ground arith
  native other d = ground arith
  native (obj s m) d = ground (arith, all_native m (d + 1))
  native (list s l) d = ground (arith, each_native l (d + 1))
  native (array l) d = ground (arith, each_native l (d + 1))

  each_native : (l : Items) (d : ℕ) → Yields EachNative (clone_items l d)
  each_native nil d = ground arith
  each_native (cons v l) d = ground (arith, native v d, each_native l d)

  all_native : (m : Fields) (d : ℕ) → Yields AllNative (clone_fields m d)
  all_native end d = ground arith
  all_native (field k v m) d = ground (arith, native v d, all_native m d)

-- What `cloneInput` returns is a native tree: plain types, string keys, no nil map or list.
pub clone-IsNative : (v : Value) (d : ℕ) → Yields IsNative (clone v d)
clone-IsNative v d = native v d

mutual
  unfolding clone

  again : (v : Value) (d : ℕ) → Yields (λ c. clone c d ≡ ok c) (clone v d)
  again null d = ground arith
  again (time t) d = ground arith
  again (duration s n) d = ground arith
  again (number s) d = ground arith
  again (bytes s) d = ground arith
  again nil_map d = ground arith
  again keyed_map d = ground arith
  again nil_list d = ground arith
  again (text s t) d = ground arith
  again (bool s b) d = ground arith
  again (int s g n) d = ground arith
  again (uint s n) d = ground arith
  again (float s n) d = ground arith
  again other d = ground arith
  again (obj s m) d = ground (arith, fields_again m (d + 1))
  again (list s l) d = ground (arith, items_again l (d + 1))
  again (array l) d = ground (arith, items_again l (d + 1))

  items_again : (l : Items) (d : ℕ) → Yields (λ c. clone_items c d ≡ ok c) (clone_items l d)
  items_again nil d = ground arith
  items_again (cons v l) d = ground (arith, again v d, items_again l d)

  fields_again : (m : Fields) (d : ℕ) → Yields (λ c. clone_fields c d ≡ ok c) (clone_fields m d)
  fields_again end d = ground arith
  fields_again (field k v m) d = ground (arith, again v d, fields_again m d)

-- Cloning a clone at the same depth succeeds and changes nothing.
pub clone-clone : (v : Value) (d : ℕ) → Yields (λ c. clone c d ≡ ok c) (clone v d)
clone-clone v d = again v d

abbrev fit {ℓ} : {A : Type ℓ} → A → ℕ → Result A
fit a n = if leb n 128 then ok a else err deep_input

-- The depth of a container is in bounds exactly if that of its elements is.
fit_inside :
    {A : Type 0} (wrap : A → Value) (a : A) (d h : ℕ) (r : Result A)
    → (d ≤ 128 → r ≡ fit a (d + h))
    → (if ltb 128 d then err deep_input else (r >>= λ c. ok (wrap c))) ≡ fit (wrap a) (d + h)
fit_inside wrap a d h r inside = elim (Bool-cases (ltb 128 d)) [
  | inl over ↦ ground arith
  | inr within ↦ rw (within, inside (ground arith)) (ground arith)
]

fit_both :
    {A B C : Type 0} (join : A → B → C) (a : A) (b : B) (d h n : ℕ)
    → (fit a (d + 1 + h) >>= λ c. fit b (d + n) >>= λ out. ok (join c out))
      ≡ fit (join a b) (d + max (1 + h) n)
fit_both join a b d h n = elim (Bool-cases (leb (d + 1 + h) 128)) [
  | inl head ↦ elim (Bool-cases (leb (d + n) 128)) [
    | inl tail ↦ rw (head, tail) (ground arith)
    | inr tail ↦ rw (head, tail) (ground arith)
  ]
  | inr head ↦ rw head (ground arith)
]

mutual
  unfolding clone height

  exact : (v : Value) (d : ℕ) → IsNative v → clone v d ≡ fit v (d + height v)
  exact null d w = ground arith
  exact (time t) d w = ground arith
  exact (duration s n) d w = ground arith
  exact (number s) d w = ground arith
  exact (bytes s) d w = ground arith
  exact nil_map d w = ground arith
  exact keyed_map d w = ground arith
  exact nil_list d w = ground arith
  exact (text s t) d w = ground arith
  exact (bool s b) d w = ground arith
  exact (int s g n) d w = ground arith
  exact (uint s n) d w = ground arith
  exact (float s n) d w = ground arith
  exact other d w = ground arith
  exact (obj plain m) d w =
      fit_inside (obj plain) m d (height_fields m) (clone_fields m (d + 1))
        (λ b. fields_exact m d b w.1)
  exact (obj named m) d w = absurd w.0
  exact (list plain l) d w =
      fit_inside (list plain) l d (height_items l) (clone_items l (d + 1))
        (λ b. items_exact l d b w.1)
  exact (list named l) d w = absurd w.0
  exact (array l) d w = absurd w

  items_exact :
      (l : Items) (d : ℕ)
      → d ≤ 128
      → EachNative l
      → clone_items l (d + 1) ≡ fit l (d + height_items l)
  items_exact nil d b w = ground arith
  items_exact (cons v l) d b w =
      rw (exact v (d + 1) w.0, items_exact l d b w.1)
        (fit_both cons v l d (height v) (height_items l))

  fields_exact :
      (m : Fields) (d : ℕ)
      → d ≤ 128
      → AllNative m
      → clone_fields m (d + 1) ≡ fit m (d + height_fields m)
  fields_exact end d b w = ground arith
  fields_exact (field k v m) d b w =
      rw (exact v (d + 1) w.0, fields_exact m d b w.1)
        (fit_both (field k) v m d (height v) (height_fields m))

-- A native value is copied as it is exactly if it is nested at most 128 deep, and otherwise refused
-- for its depth.
pub clone_native :
    (v : Value) (d : ℕ)
    → IsNative v
    → clone v d ≡ (if leb (d + height v) 128 then ok v else err deep_input)
clone_native v d w = exact v d w
