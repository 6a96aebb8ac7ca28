-- ===== src/Adapters/Vault/Options.antt =====
-- New, the options and Watch of contrib/sources/vault/vault.go.
use xconf.Prelude.{ℕ, ◌*◌, Bool, List, [], ◌∷◌, ◌++◌}
use xconf.Text.{Str, str}
use xconf.Error.{Result}
use xconf.Sources.Poll.{Received, watch_unless_zero}
use xconf.Adapters.Numbers.{default_max_bytes, second}
use xconf.Adapters.Vault.{Source}

pub data Setting : Type 0 where
  name : Str → Setting
  version max_bytes interval timeout : ℕ → Setting

abbrev pub apply : Setting → Source → Source
apply (name id) s = record s { id = id }
apply (version n) s = record s { version = n }
apply (max_bytes n) s = record s { limit = n }
apply (interval d) s = record s { interval = d }
apply (timeout d) s = record s { timeout = d }

-- The options, one after the other.
unfoldable pub apply_all : List Setting → Source → Source
apply_all [] s = s
apply_all (o ∷ os) s = apply_all os (apply o s)

unfoldable pub new : Bool → Str → List Setting → Source
unfolding apply_all
new client path options = apply_all options (record {
  client = client;
  path = path;
  id = str "vault:" ++ path;
  version = 0;
  limit = default_max_bytes;
  interval = 30 * second;
  timeout = 10 * second;
})

-- Watch: the calls of notify in the turns of Poll, or none at interval 0.
unfoldable pub watch : Source → List Received → Result ℕ
unfolding watch_unless_zero
watch s rs = watch_unless_zero s.interval rs
