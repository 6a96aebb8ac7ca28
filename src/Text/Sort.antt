-- ===== src/Text/Sort.antt =====
-- `sort.Strings` of the keys of a map, each with what stands at it.
use Prim.Native.Nat.{Ordering}
use xconf.Prelude.{[], ◌∷◌}
use xconf.Text.{Str, str_compare}
use xconf.Text.Dict.{Dict}

module _ {ℓ} {V : Type ℓ} where
  unfoldable pub place : Str → V → Dict V → Dict V
  unfolding str_compare
  place k v [] = (k, v) ∷ []
  place k v ((j, w) ∷ d) =
      let rest = place k v d in
      elim (str_compare k j) [ Ordering.gt ↦ (j, w) ∷ rest | _ ↦ (k, v) ∷ (j, w) ∷ d ]

  unfoldable pub by_key : Dict V → Dict V
  unfolding place
  by_key [] = []
  by_key ((k, v) ∷ d) = place k v (by_key d)
