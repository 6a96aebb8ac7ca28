-- ===== src/Adapters/Env.antt =====
-- `Source` of contrib/sources/env/env.go: its settings, and the environment names of schema paths.
pub mod Options
pub mod Names
pub mod Decode
use xconf.Prelude.{
  ℕ, Bool, true, false, ◌&&◌, ◌||◌, not, Option, none, some, List, [], ◌∷◌, ◌++◌, map, is_some,
  if◌then◌else◌,
}
use xconf.Text.{Str, str, str_eq}
use xconf.Text.Dict.{Dict}
use xconf.Text.Split.{join}
use xconf.Pointer.{FieldPath}

-- The library's runes of a string and back, and the classes of package unicode.
pub record Unicode : Type 0 where
  pub runes : Str → List ℕ
  pub string : List ℕ → Str
  pub is_letter : ℕ → Bool
  pub is_digit : ℕ → Bool
  pub is_upper : ℕ → Bool
  pub is_lower : ℕ → Bool
  pub to_upper : ℕ → ℕ

-- The settings; `injected` is the environment that an option supplied, none where the process's is read.
pub record Source : Type 0 where
  pub id : Str
  pub prefix : Str
  pub injected : Option (List Str)
  pub strict : Bool
  pub bindings : Dict FieldPath
  pub splits : Dict Str

-- struct binding
pub record Binding : Type 0 where
  pub path : FieldPath
  pub container : Bool
  pub ambiguous : Bool

-- reflect.DeepEqual of two paths that are not empty.
unfoldable pub path_eq : FieldPath → FieldPath → Bool
unfolding str_eq
path_eq [] [] = true
path_eq (k ∷ p) (j ∷ q) = str_eq k j && path_eq p q
path_eq _ _ = false

abbrev next_is_lower : Unicode → List ℕ → Bool
next_is_lower u [] = false
next_is_lower u (c ∷ cs) = u.is_lower c

-- Whether an underscore stands before c, between the rune before it and the runes after it.
abbrev parted : Unicode → Option ℕ → ℕ → List ℕ → Bool
parted u none c cs = false
parted u (some b) c cs =
    u.is_upper c && (u.is_lower b || u.is_digit b || (next_is_lower u cs && u.is_upper b))

-- The loop of snake, after the rune before, if there is one.
unfoldable pub snake_runes : Unicode → Option ℕ → List ℕ → List ℕ
snake_runes u before [] = []
snake_runes u before (c ∷ cs) =
    let rest = snake_runes u (some c) cs in
    if not (u.is_letter c) && not (u.is_digit c)
    then b'_' ∷ rest
    else if parted u before c cs
    then b'_' ∷ u.to_upper c ∷ rest
    else u.to_upper c ∷ rest

unfoldable pub snake : Unicode → Str → Str
unfolding snake_runes
snake u s = u.string (snake_runes u none (u.runes s))

-- s.prefix + strings.Join(parts, "_")
unfoldable pub env_name : Unicode → Source → FieldPath → Str
unfolding snake join
env_name u s p = s.prefix ++ join (map (snake u) p) (str "_")
