-- ===== src/Document/Stored/File.antt =====
-- New, the options and Watch of contrib/sources/file/file.go.
use xconf.Prelude.{ℕ, ◌*◌, true, Option, List, [], ◌∷◌}
use xconf.Text.{Str}
use xconf.Error.{Result}
use xconf.Sources.Poll.{Received, watch_unless_zero}
use xconf.Adapters.Numbers.{default_max_bytes, millisecond}
use xconf.Document.{Decoder}
use xconf.Document.Stored.{Stored}

pub data Setting : Type 0 where
  name : Str → Setting
  interval max_bytes : ℕ → Setting

abbrev pub apply : Setting → Stored → Stored
apply (name id) s = record s { id = id }
apply (interval d) s = record s { interval = d }
apply (max_bytes n) s = record s { limit = n }

-- The options, one after the other.
unfoldable pub apply_all : List Setting → Stored → Stored
apply_all [] s = s
apply_all (o ∷ os) s = apply_all os (apply o s)

unfoldable pub new : Str → Option Decoder → List Setting → Stored
unfolding apply_all
new path decoder options = apply_all options (record {
  path = path;
  id = path;
  decoder = decoder;
  interval = 250 * millisecond;
  limit = default_max_bytes;
  usable = true;
})

-- Watch: the calls of notify in the turns of Poll, or none at interval 0.
unfoldable pub watch : Stored → List Received → Result ℕ
unfolding watch_unless_zero
watch s rs = watch_unless_zero s.interval rs
