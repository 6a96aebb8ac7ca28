-- ===== src/Adapters/Consul/Options.antt =====
-- New, NewPrefix and the options of contrib/sources/consul/consul.go.
use xconf.Prelude.{ℕ, ◌*◌, Bool, false, Option, none, List, [], ◌∷◌, ◌++◌, if◌then◌else◌}
use xconf.Text.{Str, str, str_eq}
use xconf.Text.Suffix.{trim_suffix}
use xconf.Document.{Decoder}
use xconf.Adapters.Numbers.{default_max_bytes, second}
use xconf.Adapters.Consul.{Source}

pub data Setting : Type 0 where
  name : Str → Setting
  max_bytes timeout wait_time : ℕ → Setting
  ignore_keys : List Str → Setting

abbrev pub apply : Setting → Source → Source
apply (name id) s = record s { id = id }
apply (max_bytes n) s = record s { limit = n }
apply (timeout d) s = record s { timeout = d }
apply (wait_time d) s = record s { wait = d }
apply (ignore_keys patterns) s = record s { ignore_keys = s.ignore_keys ++ patterns }

-- The options, one after the other.
unfoldable pub apply_all : List Setting → Source → Source
apply_all [] s = s
apply_all (o ∷ os) s = apply_all os (apply o s)

unfoldable pub new : Bool → Str → Option Decoder → List Setting → Source
unfolding apply_all
new client key decoder options = apply_all options (record {
  client = client;
  list_client = false;
  key = key;
  id = str "consul:" ++ key;
  decoder = decoder;
  ignore_keys = [];
  limit = default_max_bytes;
  timeout = 10 * second;
  wait = 300 * second;
})

-- The name of a source whose options gave it none.
abbrev pub named : Source → Source
named s =
    if str_eq s.id (str "consul:" ++ s.key)
    then record s { id = str "consul:prefix:" ++ s.key }
    else s

unfoldable pub new_prefix : Bool → Str → List Setting → Source
unfolding new trim_suffix str_eq
new_prefix list_client prefix options =
    named (record (new false (trim_suffix prefix (str "/") ++ str "/") none options) {
      list_client = list_client;
    })
