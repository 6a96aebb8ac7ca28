-- ===== src/Text/Suffix.antt =====
-- `strings.HasSuffix` and `strings.TrimSuffix`.
use xconf.Prelude.{Bool, ◌||◌, [], ◌∷◌, if◌then◌else◌}
use xconf.Text.{Str, str_eq}

unfoldable pub has_suffix : Str → Str → Bool
unfolding str_eq
has_suffix [] suffix = str_eq [] suffix
has_suffix (c ∷ s) suffix = str_eq (c ∷ s) suffix || has_suffix s suffix

-- A string that does not end with the suffix stays.
unfoldable pub trim_suffix : Str → Str → Str
unfolding str_eq
trim_suffix [] suffix = []
trim_suffix (c ∷ s) suffix =
    let rest = trim_suffix s suffix in if str_eq (c ∷ s) suffix then [] else c ∷ rest
