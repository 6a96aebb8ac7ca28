-- ===== src/Text/Dict.antt =====
-- Go maps from strings whose order the code never shows, as lists of entries: a read, a write, and
-- `m[k] = append(m[k], a)`.
use xconf.Prelude.{◌≡◌, refl, Option, none, some, List, [], ◌∷◌, ◌++◌, arith, if◌then◌else◌}
use xconf.Text.{Str, str_eq}
use xconf.Text.Laws.{str_eq_iff}

abbrev pub Dict {ℓ} : Type ℓ → Type ℓ
Dict V = List (Str × V)

module _ {ℓ} {V : Type ℓ} where
  unfoldable pub lookup : Str → Dict V → Option V
  lookup k [] = none
  lookup k ((j, v) ∷ d) = if str_eq j k then some v else lookup k d

  unfoldable pub insert : Str → V → Dict V → Dict V
  insert k v [] = (k, v) ∷ []
  insert k v ((j, w) ∷ d) = if str_eq j k then (k, v) ∷ d else (j, w) ∷ insert k v d

  pub lookup-insert :
      (j k : Str) (v : V) (d : Dict V)
      → lookup j (insert k v d) ≡ (if str_eq k j then some v else lookup j d)
  unfolding lookup insert
  lookup-insert j k v [] = refl
  lookup-insert j k v ((i, w) ∷ d) =
      ground (arith, str_eq_iff k j, str_eq_iff i k, str_eq_iff i j, lookup-insert j k v d)

module _ {ℓ} {A : Type ℓ} where
  -- What stands at a key, where a missing key is an empty slice.
  abbrev pub entries : Str → Dict (List A) → List A
  entries k d = elim (lookup k d) [ none ↦ [] | some xs ↦ xs ]

  unfoldable pub append_at : Str → A → Dict (List A) → Dict (List A)
  append_at k a [] = (k, a ∷ []) ∷ []
  append_at k a ((j, xs) ∷ d) =
      if str_eq j k then (j, xs ++ a ∷ []) ∷ d else (j, xs) ∷ append_at k a d

  pub entries-append_at :
      (j k : Str) (a : A) (d : Dict (List A))
      → entries j (append_at k a d) ≡ (if str_eq k j then entries j d ++ a ∷ [] else entries j d)
  unfolding lookup append_at
  entries-append_at j k a [] = ground arith
  entries-append_at j k a ((i, xs) ∷ d) =
      ground (arith, str_eq_iff k j, str_eq_iff i k, str_eq_iff i j, entries-append_at j k a d)
