-- ===== src/Tests.antt =====
-- Concrete data for the examples in the modules below: a schema with an object `db` and a union
-- `auth`, two layers, and an engine.
pub mod Merging
pub mod Filtering
pub mod Loading
pub mod Serving
pub mod Watching
pub mod Reading
use xconf.Prelude.{ℕ, Bool, true, false, Option, none, some, List, [], ◌∷◌, ◌==◌, if◌then◌else◌}
use xconf.Text.{Str, str}
use xconf.Pointer.{FieldPath}
use xconf.Value.{Value, text, plain, uint, obj, Fields, end, field}
use xconf.Schema.{Getters}
use xconf.Layer.{Origin, no_location}

-- Schema 0 is the root, 1 the object `db`, 3 a variant of the union; field 1 is `db`, 2 is `auth`.
abbrev pub getters : Getters ℕ ℕ
getters = record {
  fields = λ s. if s == 0 then 1 ∷ 2 ∷ [] else [];
  name = λ f. if f == 1 then str "db" else str "auth";
  object = λ f. if f == 1 then some (some 1) else none;
  ref = λ f. none;
  one_of = λ f.
      if f == 2
      then some (record { discriminator = str "type"; variants = (str "token", 3) ∷ [] })
      else none;
  map_of = λ f. none;
  list = λ f. false;
  defs = λ s. [];
  object_field = λ s. 1;
  computed = λ f. false;
  json = λ f. false;
}

-- The same without the union.
abbrev pub plain_getters : Getters ℕ ℕ
plain_getters = record getters { one_of = λ f. none }

abbrev pub db : Str
db = str "db"

abbrev pub host : Str
host = str "host"

abbrev pub port : Str
port = str "port"

abbrev pub word : Value
word = text plain (str "new")

abbrev pub db_host : FieldPath
db_host = db ∷ host ∷ []

abbrev pub db_port : FieldPath
db_port = db ∷ port ∷ []

-- { db: { host: new } } over { db: { host: old, port: 5432 } }
abbrev pub upper : Fields
upper = field db (obj plain (field host word end)) end

abbrev pub lower : Fields
lower =
    field db (obj plain (field host (text plain (str "old")) (field port (uint plain 5432) end)))
      end

abbrev pub origin : Origin
origin = record {
  source = str "file";
  revision = str "1";
  operation = str "set";
  location = no_location;
}
