-- ===== src/Adapters/Env/Options.antt =====
-- New and the options of contrib/sources/env/env.go.
use xconf.Prelude.{true, false, none, some, List, [], ◌∷◌}
use xconf.Text.{Str, str}
use xconf.Text.Dict.{insert}
use xconf.Pointer.{FieldPath}
use xconf.Adapters.Env.{Source}

pub data Setting : Type 0 where
  name prefix : Str → Setting
  strict : Setting
  environment : List Str → Setting
  bind : Str → FieldPath → Setting
  split : Str → Str → Setting

unfoldable pub apply : Setting → Source → Source
unfolding insert
apply (name id) s = record s { id = id }
apply (prefix p) s = record s { prefix = p }
apply strict s = record s { strict = true }
apply (environment values) s = record s { injected = some values }
apply (bind n p) s = record s { bindings = insert n p s.bindings }
apply (split n separator) s = record s { splits = insert n separator s.splits }

-- The options, one after the other.
unfoldable pub apply_all : List Setting → Source → Source
unfolding apply
apply_all [] s = s
apply_all (o ∷ os) s = apply_all os (apply o s)

unfoldable pub new : List Setting → Source
unfolding apply_all
new options = apply_all options (record {
  id = str "env";
  prefix = [];
  injected = none;
  strict = false;
  bindings = [];
  splits = [];
})
