-- ===== src/Text.antt =====
-- Go strings as the sequences of their bytes: equality, the order of `slices.Sorted` and
-- `sort.Strings`, and `strings.HasPrefix`.
pub mod Laws
pub mod Decimal
pub mod Dict
pub mod Sort
pub mod Suffix
pub mod Split
use Prim.Native.Nat.{compare, Ordering}
use Prim.Native.Char.{code}
use xconf.Prelude.{ℕ, String, Bool, true, false, List, [], ◌∷◌, ◌&&◌, ◌==◌}

abbrev pub Str : Type 0
Str = List ℕ

-- A literal of ASCII characters.
abbrev pub str : String → Str
str String.[] = []
str (String.◌∷◌ c s) = code c ∷ str s

unfoldable pub str_eq : Str → Str → Bool
str_eq [] [] = true
str_eq (a ∷ s) (b ∷ t) = a == b && str_eq s t
str_eq _ _ = false

-- The comparison of Go strings: byte by byte, a proper prefix first.
unfoldable pub str_compare : Str → Str → Ordering
str_compare [] [] = Ordering.eq
str_compare [] (b ∷ t) = Ordering.lt
str_compare (a ∷ s) [] = Ordering.gt
str_compare (a ∷ s) (b ∷ t) =
    let rest = str_compare s t in
    elim (compare a b) [ Ordering.lt ↦ Ordering.lt | Ordering.gt ↦ Ordering.gt | _ ↦ rest ]

-- strings.HasPrefix(s, prefix)
unfoldable pub has_prefix : Str → Str → Bool
has_prefix s [] = true
has_prefix [] (b ∷ prefix) = false
has_prefix (a ∷ s) (b ∷ prefix) = a == b && has_prefix s prefix
