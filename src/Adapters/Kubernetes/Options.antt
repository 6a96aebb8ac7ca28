-- ===== src/Adapters/Kubernetes/Options.antt =====
-- The options of contrib/sources/kubernetes/kubernetes.go, and ConfigMap and Secret, up to the functions of
-- the client.
use xconf.Prelude.{ℕ, ◌*◌, Bool, Option, none, List, [], ◌∷◌, ◌++◌}
use xconf.Text.{Str, str}
use xconf.Text.Dict.{Dict}
use xconf.Pointer.{FieldPath}
use xconf.Document.{Decoder}
use xconf.Adapters.Numbers.{default_max_bytes, second}
use xconf.Adapters.Kubernetes.{Source}

pub data Setting : Type 0 where
  name : Str → Setting
  max_bytes timeout interval : ℕ → Setting
  document : Str → Option Decoder → Setting
  bindings : Option (Dict FieldPath) → Setting

abbrev pub apply : Setting → Source → Source
apply (name id) s = record s { id = id }
apply (max_bytes n) s = record s { limit = n }
apply (timeout d) s = record s { timeout = d }
apply (interval d) s = record s { interval = d }
apply (document key decoder) s = record s { key = key; decoder = decoder }
apply (bindings bs) s = record s { bindings = bs }

-- The options, one after the other.
unfoldable pub apply_all : List Setting → Source → Source
apply_all [] s = s
apply_all (o ∷ os) s = apply_all os (apply o s)

-- newSource, with the functions of a client that is not nil.
unfoldable pub new_source : Str → Bool → Str → List Setting → Source
unfolding apply_all
new_source kind client object options = apply_all options (record {
  name = object;
  id = str "kubernetes:" ++ kind ++ str ":" ++ object;
  key = [];
  decoder = none;
  bindings = none;
  timeout = 10 * second;
  interval = 30 * second;
  limit = default_max_bytes;
  client = client;
})

unfoldable pub config_map : Bool → Str → List Setting → Source
unfolding new_source
config_map client object options = new_source (str "configmap") client object options

unfoldable pub secret : Bool → Str → List Setting → Source
unfolding new_source
secret client object options = new_source (str "secret") client object options
