-- ===== src/Value/Ordered.antt =====
-- Values whose maps, at every depth, have their keys in order and once each; paths into values; and
-- maps that agree on every key.
use xconf.Prelude.{◌≡◌, refl, inl, inr, Option, none, some, [], ◌∷◌, arith, Bool-cases}
use xconf.Text.{Str, str_eq}
use xconf.Text.Laws.{StrLt-cases, StrLt-flip, str_compare-eq_iff}
use mathlib.Core.Option.{some-injective}
use mathlib.Core.Path.{subst}
use xconf.Pointer.{FieldPath}
use xconf.Value.{
  Value, obj, list, array, Items, nil, cons, Fields, end, field, get, put, remove, as_map,
}
use xconf.Value.Maps.{
  Above, IsSorted, Above-trans, get_head, get_first, get_tail, Above-put, Above-remove,
}

abbrev mutual
  pub IsOrdered : Value → Type 0
  IsOrdered (obj s m) = AllOrdered m
  IsOrdered (list s l) = EachOrdered l
  IsOrdered (array l) = EachOrdered l
  IsOrdered _ = Unit

  pub EachOrdered : Items → Type 0
  EachOrdered nil = Unit
  EachOrdered (cons v l) = IsOrdered v × EachOrdered l

  pub AllOrdered : Fields → Type 0
  AllOrdered end = Unit
  AllOrdered (field k v m) = Above k m × IsOrdered v × AllOrdered m

pub AllOrdered-IsSorted : (m : Fields) → AllOrdered m → IsSorted m
AllOrdered-IsSorted end a = tt
AllOrdered-IsSorted (field k v m) a = (a.0, AllOrdered-IsSorted m a.2)

pub get-IsOrdered :
    (k : Str) (m : Fields) (v : Value) → AllOrdered m → get k m ≡ some v → IsOrdered v
unfolding get
get-IsOrdered k end v a e = cc
get-IsOrdered k (field j w m) v a e = elim (Bool-cases (str_eq j k)) [
  | inl hit ↦ subst IsOrdered (some-injective w v (rw hit at e)) a.1
  | inr miss ↦ get-IsOrdered k m v a.2 (rw miss at e)
]

-- The value at a path of object members.
unfoldable pub get_path : FieldPath → Value → Option Value
unfolding as_map
get_path [] v = some v
get_path (k ∷ p) v = elim (as_map v) [
  | none ↦ none
  | some m ↦ elim (get k m) [ none ↦ none | some w ↦ get_path p w ]
]

pub put-AllOrdered :
    (k : Str) (v : Value) (m : Fields) → IsOrdered v → AllOrdered m → AllOrdered (put k v m)
unfolding put
put-AllOrdered k v end o a = (tt, o, tt)
put-AllOrdered k v (field i w m) o a = ground (
  arith,
  put-AllOrdered k v m,
  Above-trans k i m,
  str_compare-eq_iff k i,
  StrLt-flip k i,
  Above-put i k v m,
)

pub remove-AllOrdered : (k : Str) (m : Fields) → AllOrdered m → AllOrdered (remove k m)
unfolding remove
remove-AllOrdered k end a = tt
remove-AllOrdered k (field i w m) a = ground (arith, remove-AllOrdered k m, Above-remove i k m)

-- Maps that agree on every key have the same first key.
same_first :
    (j k : Str) (v w : Value) (a b : Fields)
    → IsSorted (field j v a)
    → IsSorted (field k w b)
    → ((i : Str) → get i (field j v a) ≡ get i (field k w b))
    → j ≡ k
same_first j k v w a b s t h = elim (StrLt-cases j k) [
  | inl e ↦ e
  | inr (inl lt) ↦ cc (get_head j v a, get_first j k w b lt t.0, h j)
  | inr (inr gt) ↦ cc (get_head k w b, get_first k j v a gt s.0, h k)
]

-- Maps that agree on every key are equal.
pub Fields-ext : (a b : Fields) → IsSorted a → IsSorted b → ((k : Str) → get k a ≡ get k b) → a ≡ b
Fields-ext end end s t h = refl
Fields-ext end (field k w b) s t h = unfold get in cc (get_head k w b, h k)
Fields-ext (field k v a) end s t h = unfold get in cc (get_head k v a, h k)
Fields-ext (field j v a) (field k w b) s t h =
    let e = same_first j k v w a b s t h in
    let tails : a ≡ b =
      Fields-ext a b s.1 t.1 λ i. cc (e, h i, get_tail i j v a s.0, get_tail i k w b t.0) in
    cc (e, tails, h j, get_head j v a, get_head k w b)
