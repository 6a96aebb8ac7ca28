-- ===== src/Adapters/Env/Names/Paths.antt =====
-- The paths of all bindings have a part: those of a schema, and those that options add.
use mathlib.Core.Path.{subst}
use xconf.Prelude.{
  ℕ, zero, suc, ◌≡◌, ◌≢◌, inl, inr, Bool, Option, none, some, List, [], ◌∷◌, ◌++◌, Bool-cases,
  Option-cases,
}
use xconf.Text.{Str, str_eq}
use xconf.Text.Dict.{Dict, lookup, insert, lookup-insert}
use xconf.Pointer.{FieldPath}
use xconf.Error.{ok, err}
use xconf.Schema.{Getters}
use xconf.Adapters.Env.{Unicode, Source, Binding, path_eq, env_name}
use xconf.Adapters.Env.Names.{
  Bindings, Walk, out_of_fuel, ended, after, bind, is_container, below, on_stack, walk_variants,
  variants_of, enter_below, walk_field, walk_fields, visit,
}

abbrev pub HasPaths : Bindings → Type 0
HasPaths bs = (name : Str) (bound : Binding) → lookup name bs ≡ some bound → bound.path ≢ []

pub insert-HasPaths :
    (name : Str) (b : Binding) (bs : Bindings)
    → b.path ≢ []
    → HasPaths bs
    → HasPaths (insert name b bs)
insert-HasPaths name b bs n h other bound e = elim (Bool-cases (str_eq name other)) [
  | inl d ↦
      let here : b ≡ bound = cc (rw (lookup-insert other name b bs, d) at e) in
      subst (λ (x : Binding). x.path ≢ []) here n
  | inr d ↦ h other bound (rw (lookup-insert other name b bs, d) at e)
]

-- The bindings of a walk that ended well.
abbrev pub Leaves : Walk → Type 0
Leaves out_of_fuel = Unit
Leaves (ended (err e)) = Unit
Leaves (ended (ok b)) = HasPaths b

after-Leaves :
    (w : Walk) (f : Bindings → Walk)
    → Leaves w
    → ((b : Bindings) → HasPaths b → Leaves (f b))
    → Leaves (after w f)
unfolding after
after-Leaves out_of_fuel f h k = tt
after-Leaves (ended (err e)) f h k = tt
after-Leaves (ended (ok b)) f h k = k b h

bind-Leaves :
    (name : Str) (p : FieldPath) (container : Bool) (b : Bindings)
    → p ≢ []
    → HasPaths b
    → Leaves (ended (bind name p container b))
unfolding bind
bind-Leaves name p container b n h = elim (Option-cases (lookup name b)) [
  | inl e ↦ rw (e, bind) (insert-HasPaths name _ b n h)
  | inr (old, e) ↦ elim (Bool-cases (path_eq old.path p)) [
    | inl d ↦ rw (e, d, bind) (insert-HasPaths name _ b n h)
    | inr d ↦ rw (e, d, bind) tt
  ]
]

not_empty : (p : FieldPath) (k : Str) → p ++ k ∷ [] ≢ []
not_empty [] k h = cc
not_empty (j ∷ p) k h = cc

module _ {Schema Field : Type 0} (g : Getters Schema Field) (same : Schema → Schema → Bool)
    (u : Unicode) (s : Source) (root : Schema) where
  module _ (enter : Schema → FieldPath → Bindings → Walk)
      (enters : (sc : Schema) (p : FieldPath) (b : Bindings)
        → HasPaths b
        → Leaves (enter sc p b)) where
    walk_variants-Leaves :
        (vs : Dict Schema) (p : FieldPath) (b : Bindings)
        → HasPaths b
        → Leaves (walk_variants g same u s root enter vs p b)
    unfolding walk_variants
    walk_variants-Leaves [] p b h = h
    walk_variants-Leaves ((key, sc) ∷ vs) p b h =
        after-Leaves (enter sc p b) _ (enters sc p b h) (walk_variants-Leaves vs p)

    enter_below-Leaves :
        (o : Option Schema) (p : FieldPath) (b : Bindings)
        → HasPaths b
        → Leaves (enter_below g same u s root enter o p b)
    enter_below-Leaves none p b h = h
    enter_below-Leaves (some sc) p b h = enters sc p b h

    walk_field-Leaves :
        (f : Field) (p : FieldPath) (b : Bindings)
        → p ≢ []
        → HasPaths b
        → Leaves (walk_field g same u s root enter f p b)
    unfolding walk_field
    walk_field-Leaves f p b n h =
        after-Leaves (ended (bind (env_name u s p) p (is_container g same u s root f) b)) _
          (bind-Leaves (env_name u s p) p (is_container g same u s root f) b n h)
          (λ c k.
            after-Leaves (enter_below g same u s root enter (below g same u s root f) p c) _
              (enter_below-Leaves (below g same u s root f) p c k)
              (walk_variants-Leaves (variants_of g same u s root (g.one_of f)) p))

    walk_fields-Leaves :
        (fs : List Field) (path : FieldPath) (b : Bindings)
        → HasPaths b
        → Leaves (walk_fields g same u s root enter fs path b)
    unfolding walk_fields
    walk_fields-Leaves [] path b h = h
    walk_fields-Leaves (f ∷ fs) path b h = elim (Bool-cases (g.computed f)) [
      | inl e ↦ rw e (walk_fields-Leaves fs path b h)
      | inr e ↦ rw e (
          after-Leaves (walk_field g same u s root enter f (path ++ g.name f ∷ []) b) _
            (walk_field-Leaves f (path ++ g.name f ∷ []) b (not_empty path (g.name f)) h)
            (walk_fields-Leaves fs path))
    ]

  -- Whatever the schema refers to, every binding that its walk leaves has a path with a part.
  pub visit-Leaves :
      (fuel : ℕ) (stack : List Schema) (sc : Schema) (path : FieldPath) (b : Bindings)
      → HasPaths b
      → Leaves (visit g same u s root fuel stack sc path b)
  unfolding visit
  visit-Leaves zero stack sc path b h = tt
  visit-Leaves (suc fuel) stack sc path b h =
      elim (Bool-cases (on_stack g same u s root sc stack)) [
        | inl e ↦ rw (e, visit) h
        | inr e ↦
            rw (e, visit)
              (walk_fields-Leaves (visit g same u s root fuel (sc ∷ stack))
                (visit-Leaves fuel (sc ∷ stack)) (g.fields sc) path b h)
      ]
