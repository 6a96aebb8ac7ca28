-- ===== src/Adapters/EnvFile/Options.antt =====
-- New, the options and Watch of contrib/sources/envfile/envfile.go.
use xconf.Prelude.{ℕ, ◌*◌, true, false, none, some, List, [], ◌∷◌}
use xconf.Text.{Str, str}
use xconf.Text.Dict.{Dict}
use xconf.Pointer.{FieldPath}
use xconf.Error.{Result}
use xconf.Sources.Poll.{Received, watch_unless_zero}
use xconf.Adapters.Numbers.{default_max_bytes, millisecond}
use xconf.Adapters.EnvFile.{Source}

pub data Setting : Type 0 where
  name : Str → Setting
  environment : List Str → Setting
  max_bytes interval : ℕ → Setting
  trim_final_newline : Setting

abbrev pub apply : Setting → Source → Source
apply (name id) s = record s { id = id }
apply (environment values) s = record s { injected = some values }
apply (max_bytes n) s = record s { limit = n }
apply (interval d) s = record s { interval = d }
apply trim_final_newline s = record s { trim = true }

-- The options, one after the other.
unfoldable pub apply_all : List Setting → Source → Source
apply_all [] s = s
apply_all (o ∷ os) s = apply_all os (apply o s)

unfoldable pub new : Dict FieldPath → List Setting → Source
unfolding apply_all
new bindings options = apply_all options (record {
  id = str "envfile";
  bindings = bindings;
  injected = none;
  trim = false;
  limit = default_max_bytes;
  interval = 250 * millisecond;
})

-- Watch: the calls of notify in the turns of Poll, or none at interval 0.
unfoldable pub watch : Source → List Received → Result ℕ
unfolding watch_unless_zero
watch s rs = watch_unless_zero s.interval rs
