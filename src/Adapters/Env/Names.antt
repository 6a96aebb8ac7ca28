-- ===== src/Adapters/Env/Names.antt =====
-- `visit` of contrib/sources/env/env.go: the names of all paths of a schema, which may refer to itself.
pub mod Laws
pub mod Paths
use xconf.Prelude.{
  ℕ, zero, suc, Bool, true, false, ◌||◌, not, Option, none, some, List, [], ◌∷◌, ◌++◌, is_some,
  if◌then◌else◌,
}
use xconf.Text.{Str}
use xconf.Text.Dict.{Dict, lookup, insert}
use xconf.Text.Sort.{by_key}
use xconf.Pointer.{FieldPath}
use xconf.Error.{Result, ok, err, fault, ambiguous_name}
use xconf.Schema.{Getters, OneOf, ref_key}
use xconf.Adapters.Env.{Unicode, Source, Binding, path_eq, env_name}

abbrev pub Bindings : Type 0
Bindings = Dict Binding

-- A walk that ran out of its fuel, or ended with a result.
pub data Walk : Type 0 where
  out_of_fuel : Walk
  ended : Result Bindings → Walk

-- Going on with the bindings of a walk that ended well.
unfoldable pub after : Walk → (Bindings → Walk) → Walk
after out_of_fuel f = out_of_fuel
after (ended (err e)) f = ended (err e)
after (ended (ok b)) f = f b

abbrev pub differs : Bool → Bool → Bool
differs true b = not b
differs false b = b

-- The name of a path takes its binding; a second path for a name is refused.
unfoldable pub bind : Str → FieldPath → Bool → Bindings → Result Bindings
unfolding lookup insert path_eq
bind name p container b = elim (lookup name b) [
  | none ↦ ok (insert name (record { path = p; container = container; ambiguous = false }) b)
  | some old ↦
      if not (path_eq old.path p)
      then err (fault (ambiguous_name name))
      else ok (
          insert name
            (record {
              path = p;
              container = container;
              ambiguous = old.ambiguous || differs old.container container;
            })
            b)
]

module _ {Schema Field : Type 0} (g : Getters Schema Field) (same : Schema → Schema → Bool)
    (u : Unicode) (s : Source) (root : Schema) where
  unfoldable pub is_container : Field → Bool
  is_container f =
      is_some (g.object f)
      || is_some (g.ref f)
      || is_some (g.map_of f)
      || g.list f
      || is_some (g.one_of f)
      || g.json f

  -- The schema below a field, that of a reference in place of that of an object.
  unfoldable pub below : Field → Option Schema
  unfolding ref_key lookup
  below f = elim (g.ref f) [
    | some r ↦ lookup (ref_key g r) (g.defs root)
    | none ↦ elim (g.object f) [ none ↦ none | some o ↦ o ]
  ]

  -- stack[sc]
  unfoldable pub on_stack : Schema → List Schema → Bool
  on_stack sc [] = false
  on_stack sc (t ∷ stack) = same sc t || on_stack sc stack

  -- The schemas of some variants, one after the other, by `enter`.
  unfoldable pub walk_variants :
      (Schema → FieldPath → Bindings → Walk) → Dict Schema → FieldPath → Bindings → Walk
  unfolding after
  walk_variants enter [] p b = ended (ok b)
  walk_variants enter ((key, sc) ∷ vs) p b = after (enter sc p b) (walk_variants enter vs p)

  abbrev pub variants_of : Option (OneOf Schema) → Dict Schema
  variants_of none = []
  variants_of (some union) = by_key union.variants

  abbrev pub enter_below :
      (Schema → FieldPath → Bindings → Walk) → Option Schema → FieldPath → Bindings → Walk
  enter_below enter none p b = ended (ok b)
  enter_below enter (some sc) p b = enter sc p b

  -- What is done for a field that is not computed, at its path.
  unfoldable pub walk_field :
      (Schema → FieldPath → Bindings → Walk) → Field → FieldPath → Bindings → Walk
  unfolding after bind env_name is_container below walk_variants by_key
  walk_field enter f p b = after (ended (bind (env_name u s p) p (is_container f) b)) (λ bound.
      after (enter_below enter (below f) p bound)
        (walk_variants enter (variants_of (g.one_of f)) p))

  unfoldable pub walk_fields :
      (Schema → FieldPath → Bindings → Walk) → List Field → FieldPath → Bindings → Walk
  unfolding after walk_field
  walk_fields enter [] path b = ended (ok b)
  walk_fields enter (f ∷ fs) path b =
      if g.computed f
      then walk_fields enter fs path b
      else after (walk_field enter f (path ++ g.name f ∷ []) b) (walk_fields enter fs path)

  unfoldable pub visit : ℕ → List Schema → Schema → FieldPath → Bindings → Walk
  unfolding on_stack walk_fields
  visit zero stack sc path b = out_of_fuel
  visit (suc fuel) stack sc path b =
      let below_here = walk_fields (visit fuel (sc ∷ stack)) (g.fields sc) path b in
      if on_stack sc stack then ended (ok b) else below_here
