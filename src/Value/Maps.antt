-- ===== src/Value/Maps.antt =====
-- The laws of Go maps: what a read sees after a write or a deletion, and that maps are determined
-- by what is read from them.
use xconf.Prelude.{◌≡◌, refl, none, some, arith, if◌then◌else◌}
use xconf.Text.{Str, str_eq}
use xconf.Text.Laws.{
  str_eq_iff, str_eq_refl, str_compare-eq_iff, StrLt, StrLt-trans, StrLt-flip, StrLt-ne,
}
use xconf.Value.{Value, Fields, end, field, get, put, remove}

pub get-put :
    (j k : Str) (v : Value) (m : Fields)
    → get j (put k v m) ≡ (if str_eq k j then some v else get j m)
unfolding get put
get-put j k v end = refl
get-put j k v (field i w m) =
    ground (arith, str_eq_iff k j, str_eq_iff i j, str_compare-eq_iff k i, get-put j k v m)

pub get-remove :
    (j k : Str) (m : Fields) → get j (remove k m) ≡ (if str_eq k j then none else get j m)
unfolding get remove
get-remove j k end = ground arith
get-remove j k (field i w m) =
    ground (arith, str_eq_iff k j, str_eq_iff i j, str_eq_iff i k, get-remove j k m)

pub get-put_self : (k : Str) (v : Value) (m : Fields) → get k (put k v m) ≡ some v
get-put_self k v m = ground (arith, get-put k k v m, str_eq_refl k)

-- Every key of the map comes after `k`.
abbrev pub Above : Str → Fields → Type 0
Above k end = Unit
Above k (field j v m) = StrLt k j × Above k m

-- The entries stand in the order of their keys, each key once.
abbrev pub IsSorted : Fields → Type 0
IsSorted end = Unit
IsSorted (field k v m) = Above k m × IsSorted m

pub Above-trans : (j k : Str) (m : Fields) → StrLt j k → Above k m → Above j m
Above-trans j k end h a = tt
Above-trans j k (field i v m) h a = (StrLt-trans j k i h a.0, Above-trans j k m h a.1)

pub Above-put : (j k : Str) (v : Value) (m : Fields) → StrLt j k → Above j m → Above j (put k v m)
unfolding put
Above-put j k v end h a = (h, tt)
Above-put j k v (field i w m) h a = ground (arith, Above-put j k v m)

pub Above-remove : (j k : Str) (m : Fields) → Above j m → Above j (remove k m)
unfolding remove
Above-remove j k end a = tt
Above-remove j k (field i w m) a = ground (arith, Above-remove j k m)

pub put-IsSorted : (k : Str) (v : Value) (m : Fields) → IsSorted m → IsSorted (put k v m)
unfolding put
put-IsSorted k v end s = (tt, tt)
put-IsSorted k v (field i w m) s = ground (
  arith,
  put-IsSorted k v m,
  Above-trans k i m,
  str_compare-eq_iff k i,
  StrLt-flip k i,
  Above-put i k v m,
)

pub remove-IsSorted : (k : Str) (m : Fields) → IsSorted m → IsSorted (remove k m)
unfolding remove
remove-IsSorted k end s = tt
remove-IsSorted k (field i w m) s = ground (arith, remove-IsSorted k m, Above-remove i k m)

pub get_below : (k : Str) (m : Fields) → Above k m → get k m ≡ none
unfolding get
get_below k end a = refl
get_below k (field j v m) a = ground (arith, str_eq_iff j k, StrLt-ne k j a.0, get_below k m)

pub get_field :
    (k j : Str) (v : Value) (m : Fields)
    → get k (field j v m) ≡ (if str_eq j k then some v else get k m)
unfolding get
get_field k j v m = refl

pub get_head : (k : Str) (v : Value) (m : Fields) → get k (field k v m) ≡ some v
unfolding get
get_head k v m = ground (arith, str_eq_refl k)

-- In a map that agrees with `field k v m`, the keys below `k` are absent.
pub get_first :
    (j k : Str) (v : Value) (m : Fields) → StrLt j k → Above k m → get j (field k v m) ≡ none
get_first j k v m h a = get_below j (field k v m) (h, Above-trans j k m h a)

pub get_tail :
    (j k : Str) (v : Value) (m : Fields)
    → Above k m
    → get j m ≡ (if str_eq k j then none else get j (field k v m))
unfolding get
get_tail j k v m a = ground (arith, str_eq_iff k j, get_below j m, get_below k m)
