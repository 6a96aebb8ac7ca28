-- ===== src/Adapters/Nats/Options.antt =====
-- New and the options of contrib/sources/nats/nats.go.
use xconf.Prelude.{ℕ, ◌*◌, Option, none, some, List, [], ◌∷◌, ◌++◌, is_some}
use xconf.Text.{Str, str}
use xconf.Document.{Decoder}
use xconf.Adapters.Numbers.{default_max_bytes, second}
use xconf.Adapters.Nats.{Source}

pub data Setting : Type 0 where
  name : Str → Setting
  max_bytes timeout interval : ℕ → Setting

abbrev pub apply : Setting → Source → Source
apply (name id) s = record s { id = id }
apply (max_bytes n) s = record s { limit = n }
apply (timeout d) s = record s { timeout = d }
apply (interval d) s = record s { interval = d }

-- The options, one after the other.
unfoldable pub apply_all : List Setting → Source → Source
apply_all [] s = s
apply_all (o ∷ os) s = apply_all os (apply o s)

-- The name of the source, where the bucket is given by its Bucket(), none for a nil one.
abbrev pub id_of : Option Str → Str → Str
id_of none key = str "nats:" ++ key
id_of (some bucket) key = str "nats:" ++ bucket ++ str "/" ++ key

unfoldable pub new : Option Str → Str → Option Decoder → List Setting → Source
unfolding apply_all
new bucket key decoder options = apply_all options (record {
  bucket = is_some bucket;
  key = key;
  id = id_of bucket key;
  decoder = decoder;
  limit = default_max_bytes;
  timeout = 10 * second;
  interval = 30 * second;
})
