-- ===== src/Tests/Merging.antt =====
-- Merging and editing, run on the two layers.
use xconf.Prelude.{Option, ◌≡◌, ◌≢◌, refl, inl, inr, none, some, [], ◌∷◌}
use xconf.Text.{str_eq}
use xconf.Text.Laws.{str_eq_iff}
use xconf.Text.Dict.{lookup}
use xconf.Pointer.{pointer}
use xconf.Error.{ok, Yields}
use xconf.Value.{Value, Fields, obj, plain, get}
use xconf.Value.Ordered.{get_path}
use xconf.Value.Clone.{clone}
use xconf.Layer.{replace, delete}
use xconf.Merge.{merge_map, invalidate}
use xconf.Merge.Apply.{edit_map}
use xconf.Merge.Override.{layer_wins}
use xconf.Merge.Untouched.{layer_leaves}
use xconf.Merge.Edits.{Holds, IsGone}
use xconf.Merge.Edits.Reached.{edit_map-IsOpen}
use xconf.Merge.Edits.Apart.{Keeps, edit_map-apart}
use xconf.Merge.Provenance.{invalidate_below}
use xconf.Tests.{
  getters, plain_getters, db, host, port, word, db_host, db_port, upper, lower, origin,
}

host-port : host ≢ port
unfolding str_eq
host-port e = let h = (str_eq_iff host port).1 e in cc

layer_wins_example :
    get_path db_host (obj plain (merge_map getters 0 upper lower [] (some 0) none origin [] []).0)
    ≡ some word
unfolding get_path get str_eq
layer_wins_example =
    layer_wins getters 0 origin [] upper lower db_host word (some 0) [] (tt, (tt, tt, tt), tt) refl
      refl

layer_leaves_example :
    get_path db_port
      (obj plain (merge_map plain_getters 0 upper lower [] (some 0) none origin [] []).0)
    ≡ get_path db_port (obj plain lower)
unfolding get str_eq
layer_leaves_example =
    layer_leaves plain_getters 0 origin [] (λ f. refl) upper lower db_port (some 0) []
      (tt, (tt, tt, tt), tt) (upper, refl, inr (_, refl, (_, refl, inl refl)))

edit_map-apart_example :
    Yields (Keeps db_port lower) (edit_map replace db_host word lower)
    × Yields (Keeps db_port lower) (edit_map delete db_host word lower)
edit_map-apart_example =
    edit_map-apart word db (host ∷ []) db_port lower (inr (refl, inl host-port))

invalidate_below_example :
    lookup (pointer db_host) (invalidate (db ∷ []) origin ((pointer db_host, []) ∷ []))
    ≡ some (origin ∷ [])
unfolding lookup pointer str_eq
invalidate_below_example =
    invalidate_below (db ∷ []) db_host origin ((pointer db_host, []) ∷ []) [] (host, [], refl) refl

edit_map-IsOpen_example :
    ((r : Fields × Option Value) × (edit_map replace db_host word lower ≡ ok r)
      × Holds word db_host r)
    × ((r : Fields × Option Value) × (edit_map delete db_host word lower ≡ ok r) × IsGone db_host r)
unfolding clone get str_eq
edit_map-IsOpen_example = edit_map-IsOpen db (host ∷ []) word word lower refl (inr (_, refl, tt))
