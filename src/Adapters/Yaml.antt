-- ===== src/Adapters/Yaml.antt =====
-- The decoder of contrib/decoders/yaml/yaml.go. Nodes are in a store, by numbers, since aliases may make
-- them refer to each other in a circle.
pub mod Laws
use xconf.Prelude.{
  ℕ, zero, suc, Bool, true, false, ◌||◌, not, ◌==◌, Option, none, some, List, [], ◌∷◌, ◌++◌,
  is_some, if◌then◌else◌,
}
use xconf.Text.{Str, str, str_eq, has_prefix}
use xconf.Text.Decimal.{itoa}
use xconf.Text.Dict.{Dict, insert}
use xconf.Text.Suffix.{has_suffix}
use xconf.Pointer.{FieldPath, pointer}
use xconf.Error.{
  Error, Result, ok, err, ◌>>=◌, fault, assertion, yaml_documents, yaml_empty, yaml_root,
  yaml_budget, yaml_nesting, yaml_keys, yaml_duplicate, yaml_number, yaml_scalar, yaml_node,
}
use xconf.Value.{
  Value, null, time, number, text, bool, int, uint, obj, list, plain, Items, nil, cons, Fields, end,
  get, put,
}
use xconf.Layer.{Location}

pub data Kind : Type 0 where
  mapping sequence alias scalar other : Kind

-- What walk reads of a yaml.Node; `content` and `target`, its Alias, are numbers in the store.
pub record Node : Type 0 where
  pub kind : Kind
  pub tag : Str
  pub value : Str
  pub line : ℕ
  pub column : ℕ
  pub content : List ℕ
  pub target : ℕ

-- json.Valid, and n.Decode of a scalar node into an `any`.
pub record Library : Type 0 where
  pub json_valid : Str → Bool
  pub scalar : Node → Result Value

-- A value, the locations and the budget that is left.
pub record Walked (A : Type 0) : Type 0 where
  pub value : A
  pub locations : Dict Location
  pub budget : ℕ

-- strings.ReplaceAll(s, "_", "")
unfoldable pub without_underscores : Str → Str
without_underscores [] = []
without_underscores (c ∷ s) =
    let rest = without_underscores s in if c == b'_' then rest else c ∷ rest

-- s[1:], where s is not empty.
abbrev pub tail : Str → Str
tail [] = []
tail (c ∷ s) = s

abbrev pub pad_dot : Str → Str
pad_dot raw = if has_prefix raw (str ".") then str "0" ++ raw else raw

abbrev pub pad_minus : Str → Str
pad_minus raw = if has_prefix raw (str "-.") then str "-0" ++ tail raw else raw

abbrev pub pad_plus : Str → Str
pad_plus raw = if has_prefix raw (str "+.") then str "0" ++ tail raw else raw

abbrev pub trim_plus : Str → Str
trim_plus raw = if has_prefix raw (str "+") then tail raw else raw

abbrev pub pad_end : Str → Str
pad_end raw = if has_suffix raw (str ".") then raw ++ str "0" else raw

-- A YAML float as a JSON number.
unfoldable pub number_text : Str → Str
unfolding without_underscores has_prefix has_suffix
number_text raw = pad_end (trim_plus (pad_plus (pad_minus (pad_dot (without_underscores raw)))))

-- The types of a decoded scalar that are taken.
unfoldable pub is_scalar : Value → Bool
is_scalar null = true
is_scalar (text plain s) = true
is_scalar (bool plain b) = true
is_scalar (int plain sign n) = true
is_scalar (uint plain n) = true
is_scalar (time t) = true
is_scalar _ = false

unfoldable pub scalar_value : Library → Node → Result Value
unfolding number_text is_scalar str_eq
scalar_value lib n =
    if str_eq n.tag (str "!!float")
    then (if lib.json_valid (number_text n.value)
        then ok (number (number_text n.value))
        else err (fault yaml_number))
    else (lib.scalar n >>= λ v. if is_scalar v then ok v else err (fault yaml_scalar))

-- The call of walk one level below.
abbrev pub Enter : Type 0
Enter = ℕ → FieldPath → Dict Location → ℕ → Result (Walked Value)

module _ (lib : Library) (store : ℕ → Node) where
  -- The loop over the keys and values of a mapping; one without a value is out of range.
  unfoldable pub walk_pairs :
      Enter → List ℕ → FieldPath → Fields → Dict Location → ℕ → Result (Walked Fields)
  unfolding str_eq get put
  walk_pairs enter [] p m locs budget = ok (record { value = m; locations = locs; budget = budget })
  walk_pairs enter (k ∷ []) p m locs budget =
      if not (str_eq (store k).tag (str "!!str"))
      then err (fault yaml_keys)
      else if is_some (get (store k).value m)
      then err (fault yaml_duplicate)
      else err (fault assertion)
  walk_pairs enter (k ∷ v ∷ rest) p m locs budget =
      elim (not (str_eq (store k).tag (str "!!str"))) [
        | true ↦ err (fault yaml_keys)
        | false ↦ elim (is_some (get (store k).value m)) [
          | true ↦ err (fault yaml_duplicate)
          | false ↦ enter v (p ++ (store k).value ∷ []) locs budget >>= λ w.
              walk_pairs enter rest p (put (store k).value w.value m) w.locations w.budget
        ]
      ]

  -- The loop over the nodes of a sequence, from an index.
  unfoldable pub walk_items :
      Enter → ℕ → List ℕ → FieldPath → Dict Location → ℕ → Result (Walked Items)
  unfolding itoa
  walk_items enter i [] p locs budget =
      ok (record { value = nil; locations = locs; budget = budget })
  walk_items enter i (n ∷ ns) p locs budget = enter n (p ++ itoa i ∷ []) locs budget >>= λ w.
      (walk_items enter (suc i) ns p w.locations w.budget >>= λ ws.
      ok (record ws { value = cons w.value ws.value }))

  -- The switch on the kind of a node.
  unfoldable pub walk_kind :
      Enter → Kind → Node → FieldPath → Dict Location → ℕ → Result (Walked Value)
  unfolding walk_pairs walk_items scalar_value
  walk_kind enter mapping n p locs budget = walk_pairs enter n.content p end locs budget >>= λ w.
      ok (record { value = obj plain w.value; locations = w.locations; budget = w.budget })
  walk_kind enter sequence n p locs budget = walk_items enter 0 n.content p locs budget >>= λ w.
      ok (record { value = list plain w.value; locations = w.locations; budget = w.budget })
  walk_kind enter alias n p locs budget = enter n.target p locs budget
  walk_kind enter scalar n p locs budget =
      scalar_value lib n >>= λ v. ok (record { value = v; locations = locs; budget = budget })
  walk_kind enter other n p locs budget = err (fault yaml_node)

  -- walk, where `levels` is 129 less the depth: at none the depth is over 128.
  unfoldable pub walk : ℕ → ℕ → FieldPath → Dict Location → ℕ → Result (Walked Value)
  unfolding insert walk_kind pointer
  walk levels id p locs zero = err (fault yaml_budget)
  walk zero id p locs (suc budget) = err (fault yaml_nesting)
  walk (suc levels) id p locs (suc budget) =
      walk_kind (walk levels) (store id).kind (store id) p
        (insert (pointer p)
          (record { name = []; line = (store id).line; column = (store id).column }) locs)
        budget

  abbrev root_of : Value → Dict Location → Result (Option Fields × Dict Location)
  root_of (obj plain m) locs = ok (some m, locs)
  root_of _ locs = err (fault yaml_root)

  -- Decode, where the two calls of the decoder give an error, the content of a document, or, as none,
  -- more than one document.
  unfoldable pub decode : Result (Option (List ℕ)) → Result (Option Fields × Dict Location)
  unfolding walk
  decode (err e) = err e
  decode (ok none) = err (fault yaml_documents)
  decode (ok (some [])) = err (fault yaml_empty)
  decode (ok (some (n ∷ []))) = walk 129 n [] [] 100000 >>= λ w. root_of w.value w.locations
  decode (ok (some (n ∷ k ∷ ns))) = err (fault yaml_empty)
