-- ===== src/Document/Stored/Fs.antt =====
-- New and the options of contrib/sources/fs/fs.go.
use xconf.Prelude.{ℕ, Bool, ◌&&◌, Option, List, [], ◌∷◌, ◌++◌}
use xconf.Text.{Str, str}
use xconf.Adapters.Numbers.{default_max_bytes}
use xconf.Document.{Decoder}
use xconf.Document.Stored.{Stored}

pub data Setting : Type 0 where
  name : Str → Setting
  max_bytes : ℕ → Setting

abbrev pub apply : Setting → Stored → Stored
apply (name id) s = record s { id = id }
apply (max_bytes n) s = record s { limit = n }

-- The options, one after the other.
unfoldable pub apply_all : List Setting → Stored → Stored
apply_all [] s = s
apply_all (o ∷ os) s = apply_all os (apply o s)

-- New, for a file system that is there or nil; fs.ValidPath is a parameter.
unfoldable pub new : (Str → Bool) → Bool → Str → Option Decoder → List Setting → Stored
unfolding apply_all
new valid_path fsys path decoder options = apply_all options (record {
  path = path;
  id = str "fs:" ++ path;
  decoder = decoder;
  interval = 0;
  limit = default_max_bytes;
  usable = fsys && valid_path path;
})
