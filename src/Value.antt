-- ===== src/Value.antt =====
-- Go's `any` as the values that `cloneInput` of merge.go tells apart, and Go maps with string keys.
-- A map is its entries in the order of the keys, the order in which the code walks a map where
-- that order can be seen (`slices.Sorted(maps.Keys(m))`); `put` and `remove` keep it.
pub mod Maps
pub mod Ordered
pub mod Clone
pub mod Equal
use Prim.Native.Nat.{Ordering}
use xconf.Prelude.{ℕ, Bool, true, false, Option, none, some, List, [], ◌∷◌, if◌then◌else◌}
use xconf.Text.{Str, str_eq, str_compare}

-- Whether the dynamic type is the plain Go type that `cloneInput` produces (`string`, `int64`,
-- `map[string]any`, ...), or a defined or narrower type of the same kind.
pub data Shape : Type 0 where
  plain named : Shape

-- `int` has the sign as `true` for a negative number; `float` is the bit pattern of the float64.
-- `nil_map` and `nil_list` are nil maps and slices in a non-nil interface, `keyed_map` a map whose
-- keys are no strings, `array` a Go array, `other` a value of a kind that is not supported.
mutual
  pub data Value : Type 0 where
    null : Value
    time : ℕ → Value
    duration : Bool → ℕ → Value
    number : Str → Value
    bytes : Str → Value
    obj : Shape → Fields → Value
    nil_map : Value
    keyed_map : Value
    list : Shape → Items → Value
    array : Items → Value
    nil_list : Value
    text : Shape → Str → Value
    bool : Shape → Bool → Value
    int : Shape → Bool → ℕ → Value
    uint : Shape → ℕ → Value
    float : Shape → ℕ → Value
    other : Value

  pub data Items : Type 0 where
    nil : Items
    cons : Value → Items → Items

  pub data Fields : Type 0 where
    end : Fields
    field : Str → Value → Fields → Fields

-- v, ok := m[key]
unfoldable pub get : Str → Fields → Option Value
get k end = none
get k (field j v m) = if str_eq j k then some v else get k m

-- m[key] = v
unfoldable pub put : Str → Value → Fields → Fields
put k v end = field k v end
put k v (field j w m) =
    let later = field j w (put k v m) in
    elim (str_compare k j) [
      | Ordering.lt ↦ field k v (field j w m)
      | Ordering.gt ↦ later
      | _ ↦ field k v m
    ]

-- delete(m, key)
unfoldable pub remove : Str → Fields → Fields
remove k end = end
remove k (field j v m) = let rest = remove k m in if str_eq j k then rest else field j v rest

unfoldable pub keys : Fields → List Str
keys end = []
keys (field k v m) = k ∷ keys m

-- m, ok := v.(map[string]any)
unfoldable pub as_map : Value → Option Fields
as_map (obj plain m) = some m
as_map _ = none
