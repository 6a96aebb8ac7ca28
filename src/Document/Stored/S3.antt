-- ===== src/Document/Stored/S3.antt =====
-- New, the options and Watch of contrib/sources/s3/s3.go.
use xconf.Prelude.{ℕ, ◌*◌, Bool, Option, List, [], ◌∷◌, ◌++◌}
use xconf.Text.{Str, str}
use xconf.Error.{Result}
use xconf.Sources.Poll.{Received, watch_unless_zero}
use xconf.Adapters.Numbers.{default_max_bytes, second}
use xconf.Document.{Decoder}
use xconf.Document.Stored.{Bucket}

pub data Setting : Type 0 where
  name version : Str → Setting
  max_bytes interval timeout : ℕ → Setting

abbrev pub apply : Setting → Bucket → Bucket
apply (name id) s = record s { id = id }
apply (version id) s = record s { version = id }
apply (max_bytes n) s = record s { limit = n }
apply (interval d) s = record s { interval = d }
apply (timeout d) s = record s { timeout = d }

-- The options, one after the other.
unfoldable pub apply_all : List Setting → Bucket → Bucket
apply_all [] s = s
apply_all (o ∷ os) s = apply_all os (apply o s)

unfoldable pub new : Bool → Str → Str → Option Decoder → List Setting → Bucket
unfolding apply_all
new client bucket key decoder options = apply_all options (record {
  client = client;
  bucket = bucket;
  key = key;
  id = str "s3://" ++ bucket ++ str "/" ++ key;
  version = [];
  decoder = decoder;
  limit = default_max_bytes;
  interval = 30 * second;
  timeout = 10 * second;
})

-- Watch: the calls of notify in the turns of Poll, or none at interval 0.
unfoldable pub watch : Bucket → List Received → Result ℕ
unfolding watch_unless_zero
watch s rs = watch_unless_zero s.interval rs
