-- ===== src/Text/Split.antt =====
-- `strings.Split` with a separator that is not empty, and `strings.Join`.
use xconf.Prelude.{ℕ, zero, suc, ◌-◌, List, [], ◌∷◌, ◌++◌, length, if◌then◌else◌}
use xconf.Text.{Str, has_prefix}

-- The first piece and the others; what is left of a separator is skipped.
unfoldable pub pieces : Str → ℕ → Str → Str × List Str
unfolding has_prefix
pieces sep skip [] = ([], [])
pieces sep (suc skip) (c ∷ s) = pieces sep skip s
pieces sep zero (c ∷ s) =
    let next = pieces sep (length sep - 1) s in
    let same = pieces sep zero s in
    if has_prefix (c ∷ s) sep then ([], next.0 ∷ next.1) else (c ∷ same.0, same.1)

unfoldable pub split : Str → Str → List Str
unfolding pieces
split s sep = let out = pieces sep zero s in out.0 ∷ out.1

unfoldable pub join : List Str → Str → Str
join [] sep = []
join (s ∷ []) sep = s
join (s ∷ t ∷ ss) sep = s ++ sep ++ join (t ∷ ss) sep
