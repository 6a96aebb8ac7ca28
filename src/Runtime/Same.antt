-- ===== src/Runtime/Same.antt =====
-- When two snapshots are the same for `Reload` of runtime.go, which then publishes nothing new.
use xconf.Prelude.{ℕ, suc, Bool, true, false, ◌&&◌, none, some, List, [], ◌∷◌, ◌==◌, length}
use xconf.Text.{Str, str_eq}
use xconf.Text.Dict.{Dict, lookup}
use xconf.Error.{Degraded, healthy, stale}
use xconf.Layer.{Origin}
use xconf.Loader.{Snapshot}

-- reflect.DeepEqual of maps: as many entries, and each entry of one in the other.
unfoldable pub all_in {ℓ} : {V : Type ℓ} → (V → V → Bool) → Dict V → Dict V → Bool
unfolding lookup
all_in eq [] b = true
all_in eq ((k, v) ∷ a) b = (elim (lookup k b) [ none ↦ false | some w ↦ eq v w ]) && all_in eq a b

unfoldable pub dict_equal {ℓ} : {V : Type ℓ} → (V → V → Bool) → Dict V → Dict V → Bool
unfolding all_in
dict_equal eq a b = length a == length b && all_in eq a b

unfoldable pub origin_equal : Origin → Origin → Bool
origin_equal a b =
    str_eq a.source b.source
    && str_eq a.revision b.revision
    && str_eq a.operation b.operation
    && str_eq a.location.name b.location.name
    && a.location.line == b.location.line
    && a.location.column == b.location.column

unfoldable pub history_equal : List Origin → List Origin → Bool
unfolding origin_equal
history_equal [] [] = true
history_equal (a ∷ as') (b ∷ bs) = origin_equal a b && history_equal as' bs
history_equal _ _ = false

-- len(degraded), and whether a source is among its keys.
abbrev pub size : Degraded → ℕ
size healthy = 0
size (stale n e d) = suc (size d)

unfoldable pub has_key : Str → Degraded → Bool
has_key n healthy = false
has_key n (stale m e d) = elim (str_eq m n) [ true ↦ true | false ↦ has_key n d ]

unfoldable pub keys_in : Degraded → Degraded → Bool
unfolding has_key
keys_in healthy b = true
keys_in (stale n e a) b = has_key n b && keys_in a b

-- sameKeys
unfoldable pub same_keys : Degraded → Degraded → Bool
unfolding keys_in
same_keys a b = size a == size b && keys_in a b

module _ {Baked Validation Report : Type 0} (values_equal : Baked → Baked → Bool)
    (validation_equal : Validation → Validation → Bool) where
  -- The condition under which a successful rebuild keeps the old snapshot.
  unfoldable pub same_snapshot :
      Snapshot Baked Validation Report → Snapshot Baked Validation Report → Bool
  unfolding dict_equal history_equal same_keys
  same_snapshot old next =
      values_equal old.baked next.baked
      && dict_equal history_equal old.origins next.origins
      && dict_equal str_eq old.revisions next.revisions
      && validation_equal old.validation next.validation
      && same_keys old.degraded next.degraded
