-- ===== src/Adapters/Etcd/Options.antt =====
-- New and the options of contrib/sources/etcd/etcd.go.
use xconf.Prelude.{ℕ, ◌*◌, Bool, Option, List, [], ◌∷◌, ◌++◌}
use xconf.Text.{Str, str}
use xconf.Document.{Decoder}
use xconf.Adapters.Numbers.{default_max_bytes, second}
use xconf.Adapters.Etcd.{Source}

pub data Setting : Type 0 where
  name : Str → Setting
  max_bytes timeout interval : ℕ → Setting

abbrev pub apply : Setting → Source → Source
apply (name id) s = record s { id = id }
apply (max_bytes n) s = record s { limit = n }
apply (timeout d) s = record s { timeout = d }
apply (interval d) s = record s { interval = d }

-- The options, one after the other.
unfoldable pub apply_all : List Setting → Source → Source
apply_all [] s = s
apply_all (o ∷ os) s = apply_all os (apply o s)

unfoldable pub new : Bool → Str → Option Decoder → List Setting → Source
unfolding apply_all
new client key decoder options = apply_all options (record {
  client = client;
  key = key;
  id = str "etcd:" ++ key;
  decoder = decoder;
  limit = default_max_bytes;
  timeout = 10 * second;
  interval = 30 * second;
})
