-- ===== src/Tests/Reading.antt =====
-- The sources that put strings at paths, run on small inputs.
use mathlib.Core.Path.{subst}
use xconf.Prelude.{
  ℕ, ◌+◌, ◌≡◌, ◌≢◌, ◌↔◌, ◌≤◌, ◌<◌, ◌⊎◌, refl, inl, inr, Bool, true, false, Option, none, some, List,
  [], ◌∷◌, ◌==◌, ◌++◌, arith, All, Bool-cases, if◌then◌else◌,
}
use xconf.Text.{Str, str, str_eq, has_prefix}
use xconf.Text.Decimal.{itoa}
use xconf.Text.Laws.{str_eq_iff}
use xconf.Text.Dict.{Dict, lookup}
use xconf.Pointer.{FieldPath, pointer}
use xconf.Error.{Error, Result, ok, err, Yields, not_found}
use xconf.Value.{Value, text, plain, obj, Fields, end, field}
use xconf.Value.Ordered.{get_path}
use xconf.Layer.{Layer, Location}
use xconf.Schema.{Getters, OneOf}
use xconf.Adapters.Assign.Overlap.{AllHeld, IsApartFrom}
use xconf.Adapters.Assign.Selected.{IsDisjoint, selected}
use xconf.Adapters.Kubernetes.{bind_keys}
use xconf.Adapters.Kubernetes.Laws.{IsBindable, present, bind_keys-end}
use xconf.Adapters.Directory as Directory
use xconf.Adapters.Directory.Laws.{read-IsPinned, IsPinned}
use xconf.Adapters.Directory.Healthy.{healthy, total}
use xconf.Adapters.Directory.Tree.{read_names-healthy, at, value_at}
use xconf.Adapters.Env as Env
use xconf.Adapters.Env.Names as Names
use xconf.Adapters.Env.Names.Laws.{visit-length, IsClosed}
use xconf.Adapters.Env.Decode as Decode
use xconf.Adapters.Env.Decode.Laws.{assign_vars-schema, IsSound}
use xconf.Adapters.Flags.{parse}
use xconf.Adapters.Flags.Laws.{parse-render, joined, apart, render, insert_all}
use xconf.Adapters.Yaml as Yaml
use xconf.Adapters.Yaml.Laws.{walk-size, size}
use xconf.Tests.{getters, db, host, port, db_host, db_port}

differ : (s t : Str) → str_eq s t ≡ false → s ≢ t
differ s t h e = ground (arith, str_eq_iff s t)

-- Two keys of an object; the second one is not there.
abbrev bindings : Dict FieldPath
bindings = (str "h", db_host) ∷ (str "p", db_port) ∷ []

abbrev values : Dict Value
values = (str "h", text plain (str "new")) ∷ []

bindable : IsBindable [] bindings
unfolding str_eq
bindable = ((λ e. cc), tt, ((λ e. cc), (inr (refl, inl (differ port host refl)), tt), tt))

bind_keys-end_example :
    (r : Fields) × (out : Dict Location) × (bind_keys (str "k") values [] bindings end []
      ≡ ok (r, out))
    × AllHeld r (present values bindings)
    × ((q : FieldPath)
        → IsApartFrom q (present values bindings)
        → get_path q (obj plain r) ≡ get_path q (obj plain end))
bind_keys-end_example = bind_keys-end (str "k") values bindings bindable

abbrev library : Directory.Library
library = record {
  is_local = λ s. true;
  join = λ d s. d ++ str "/" ++ s;
  valid_path = λ s. true;
  digest = λ s. s;
}

abbrev source : Directory.Source
source = record {
  dir = str "d";
  id = str "directory:d";
  bindings = some bindings;
  interval = 0;
  limit = 10;
  trim = false;
}

abbrev tree : Str → Option Str
tree s = if str_eq s (str "d/h") then some (str "new") else none

disjoint : IsDisjoint bindings
unfolding str_eq
disjoint = ((λ e. cc), (inr (refl, inl (differ host port refl)), tt), ((λ e. cc), tt, tt))

abbrev attempt : ℕ → Directory.Attempt
attempt n = record {
  living = none;
  stat = Directory.found true;
  link = Directory.absent;
  entries = λ s. ok [];
  probe = healthy tree;
  link_after = if n == 0 then Directory.found (str "g") else Directory.absent;
}

-- The first attempt finds another generation after the reading, the second one does not.
abbrev second : Layer
second = record {
  values = some (field db (obj plain (field host (text plain (str "new")) end)) end);
  revision = str "1:h3:new";
  locations = (pointer db_host, record { name = str "d/h"; line = 0; column = 0 }) ∷ [];
  edits = [];
  stale = none;
}

second_read : Directory.read library source attempt ≡ ok second
unfolding Directory.read pointer itoa
second_read = refl

read-IsPinned_example : (j : ℕ) × (j < 4) × IsPinned library source (attempt j) second
read-IsPinned_example = read-IsPinned library source attempt second second_read

read_names-healthy_example :
    ((total (at library source tree (str "d")) bindings ≤ 10)
      × ((out : Directory.Progress) × (Directory.read_names library source
              (healthy tree)
              (str "d")
              bindings
              (Directory.start 10)
            ≡ ok out)
          × AllHeld out.values (selected (value_at library source tree (str "d")) bindings)
          × ((q : FieldPath)
              → IsApartFrom q (selected (value_at library source tree (str "d")) bindings)
              → get_path q (obj plain out.values) ≡ get_path q (obj plain end))))
    ⊎ ((10 < total (at library source tree (str "d")) bindings)
        × ((e : Error) × (Directory.read_names library source
                (healthy tree)
                (str "d")
                bindings
                (Directory.start 10)
              ≡ err e)))
read_names-healthy_example =
    read_names-healthy library source tree (str "d") bindings 10 (omega arith) disjoint

-- A schema whose object holds the object again.
abbrev circle : Getters ℕ ℕ
circle = record getters { fields = λ s. 1 ∷ 2 ∷ [] }

abbrev unicode : Env.Unicode
unicode = record {
  runes = λ s. s;
  string = λ s. s;
  is_letter = λ c. true;
  is_digit = λ c. false;
  is_upper = λ c. false;
  is_lower = λ c. true;
  to_upper = λ c. c;
}

abbrev settings : Env.Source
settings = record {
  id = str "env";
  prefix = str "APP_";
  injected = none;
  strict = true;
  bindings = [];
  splits = [];
}

abbrev same_schema : ℕ → ℕ → Bool
same_schema a b = a == b

identity : (a b : ℕ) → (same_schema a b ≡ true) ↔ (a ≡ b)
identity a b = (λ h. ground arith, λ h. ground arith)

abbrev schemas : List ℕ
schemas = 0 ∷ 1 ∷ 3 ∷ []

abbrev union_3 : OneOf ℕ
union_3 = record { discriminator = str "type"; variants = (str "token", 3) ∷ [] }

closed : IsClosed circle same_schema unicode settings 0 identity schemas
unfolding Names.below Names.on_stack
closed = record {
  refers = λ f sc h. elim (Bool-cases (f == 1)) [
    | inl e ↦
        let here : 1 ≡ sc = cc (rw (e, Names.below) at h) in
        subst (λ x. Names.on_stack circle same_schema unicode settings 0 x schemas ≡ true) here refl
    | inr e ↦ cc (rw (e, Names.below) at h)
  ];
  variants = λ f union h. elim (Bool-cases (f == 2)) [
    | inl e ↦
        let here : union_3 ≡ union = cc (rw e at h) in
        subst
          (λ u.
            All (λ x. Names.on_stack circle same_schema unicode settings 0 x.1 schemas ≡ true)
              u.variants)
          here (refl, tt)
    | inr e ↦ cc (rw e at h)
  ];
}

visit-length_example :
    (r : Result Names.Bindings) × (Names.visit circle same_schema unicode settings 0 4 [] 0 [] []
      ≡ Names.ended r)
unfolding Names.on_stack
visit-length_example =
    visit-length circle same_schema unicode settings 0 identity schemas closed refl 4 (omega arith)

-- Every text is a value of its own.
abbrev json : Str → Decode.Json
json t = Decode.value (text plain t)

abbrev names : Names.Bindings
names =
    (str "APP_db", record { path = db ∷ []; container = true; ambiguous = false })
    ∷ (str "APP_auth", record { path = str "auth" ∷ []; container = true; ambiguous = false })
    ∷ []

abbrev vars : Dict Str
vars = (str "APP_db", str "new") ∷ (str "HOME", str "x") ∷ []

names_found :
    Names.visit getters same_schema unicode settings 0 4 [] 0 [] [] ≡ Names.ended (ok names)
unfolding Names.visit Env.env_name
names_found = refl

assign_vars-schema_example :
    IsSound json settings names vars [] (Decode.assign_vars json settings names vars Decode.fresh)
unfolding Decode.bind_all
assign_vars-schema_example =
    assign_vars-schema getters same_schema unicode json settings 0 4 names names vars names_found
      refl

-- Whether a name is bound as a container.
abbrev container_of : Str → Result Names.Bindings → Option Bool
container_of name (err e) = none
container_of name (ok b) = elim (lookup name b) [ none ↦ none | some x ↦ some x.container ]

-- A new name for the object `db`, whose own name is given to another path: what the new name is bound as
-- depends on which of the two comes first, and a Go map gives them in any order.
renamed_last :
    container_of
      (str "X")
      (Decode.bind_all ((str "APP_db", str "other" ∷ []) ∷ (str "X", db ∷ []) ∷ []) names)
    ≡ some false
unfolding Decode.bind_all lookup
renamed_last = refl

renamed_first :
    container_of
      (str "X")
      (Decode.bind_all ((str "X", db ∷ []) ∷ (str "APP_db", str "other" ∷ []) ∷ []) names)
    ≡ some true
unfolding Decode.bind_all lookup
renamed_first = refl

parse-render_example :
    parse bindings (render (joined (str "h") (str "new") ∷ apart (str "p") (str "1") ∷ [])) []
    ≡ ok (insert_all (joined (str "h") (str "new") ∷ apart (str "p") (str "1") ∷ []) [])
unfolding has_prefix lookup str_eq
parse-render_example =
    parse-render bindings (joined (str "h") (str "new") ∷ apart (str "p") (str "1") ∷ []) []
      (((λ e. cc), tt), ((((λ e. cc), tt), refl), tt)) (refl, (refl, tt))

-- A sequence that holds itself.
abbrev loop : ℕ → Yaml.Node
loop n = record {
  kind = Yaml.sequence;
  tag = [];
  value = [];
  line = 1;
  column = 1;
  content = 0 ∷ [];
  target = 0;
}

abbrev yaml : Yaml.Library
yaml = record { json_valid = λ s. true; scalar = λ n. err not_found }

walk-size_example : Yields (λ w. size w.value + w.budget ≤ 5) (Yaml.walk yaml loop 3 0 [] [] 5)
walk-size_example = walk-size yaml loop 3 0 [] [] 5
