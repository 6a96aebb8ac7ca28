-- ===== src/Value/Clone.antt =====
-- `cloneInput` of merge.go: a deep copy that also brings values to their plain Go types. The
-- entries of a map are cloned in the order of their keys.
pub mod Laws
use xconf.Prelude.{ℕ, ◌+◌, Bool, ltb, if◌then◌else◌}
use xconf.Text.{Str}
use xconf.Error.{Error, Result, ok, err, ◌>>=◌, deep_input, map_key, unsupported}
use xconf.Value.{
  Shape, plain, Value, null, time, duration, number, bytes, obj, nil_map, keyed_map, list, array,
  nil_list, text, bool, int, uint, float, other, Items, nil, cons, Fields, end, field,
}

abbrev pub max_depth : ℕ
max_depth = 128

-- The test on the depth that stands before everything else.
abbrev bounded : ℕ → Result Value → Result Value
bounded depth r = if ltb max_depth depth then err deep_input else r

unfoldable mutual
  pub clone : Value → ℕ → Result Value
  clone null d = bounded d (ok null)
  clone (time t) d = bounded d (ok (time t))
  clone (duration s n) d = bounded d (ok (duration s n))
  clone (number s) d = bounded d (ok (number s))
  clone (bytes s) d = bounded d (ok (bytes s))
  clone (obj s m) d = bounded d (do out ← clone_fields m (d + 1); ok (obj plain out))
  clone nil_map d = bounded d (ok null)
  clone keyed_map d = bounded d (err map_key)
  clone (list s l) d = bounded d (do out ← clone_items l (d + 1); ok (list plain out))
  clone (array l) d = bounded d (do out ← clone_items l (d + 1); ok (list plain out))
  clone nil_list d = bounded d (ok null)
  clone (text s t) d = bounded d (ok (text plain t))
  clone (bool s b) d = bounded d (ok (bool plain b))
  clone (int s g n) d = bounded d (ok (int plain g n))
  clone (uint s n) d = bounded d (ok (uint plain n))
  clone (float s n) d = bounded d (ok (float plain n))
  clone other d = bounded d (err unsupported)

  pub clone_items : Items → ℕ → Result Items
  clone_items nil d = ok nil
  clone_items (cons v l) d = do c ← clone v d; out ← clone_items l d; ok (cons c out)

  -- In the order of the keys, where a Go map has none: which error a map with several bad members gives
  -- is not determined there.
  pub clone_fields : Fields → ℕ → Result Fields
  clone_fields end d = ok end
  clone_fields (field k v m) d = do c ← clone v d; out ← clone_fields m d; ok (field k c out)
