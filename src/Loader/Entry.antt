-- ===== src/Loader/Entry.antt =====
-- `New`, `newLoader`, `Load`, `LoadAs` and `Snapshot.Explain` of xconf.go, with the compilation of
-- a schema, which schemapb does, as a parameter.
use xconf.Prelude.{ℕ, ◌≡◌, refl, Option, none, some, List, inl, inr}
use xconf.Text.Dict.{entries}
use xconf.Pointer.{FieldPath, pointer}
use xconf.Error.{Result, ok, err, ◌>>=◌, Result-cases, nil_schema, with_degraded}
use xconf.Schema.{Getters}
use xconf.Layer.{Origin}
use xconf.Loader.{Source, Engine, Snapshot, Context, bind, load, load_first}

unfoldable pub explain :
    {Baked Validation Report : Type 0} → Snapshot Baked Validation Report → FieldPath → List Origin
unfolding pointer
explain s p = entries (pointer p) s.origins

module _ {Schema Field Baked Validation Report : Type 0} (g : Getters Schema Field)
    (compile : Schema → Result (Engine Baked Validation Report)) where
  -- New: the schema and its engine.
  unfoldable pub new_base : Option Schema → Result (Schema × Engine Baked Validation Report)
  new_base none = err nil_schema
  new_base (some schema) = do engine ← compile schema; ok (schema, engine)

  -- newLoader
  unfoldable pub new_loader :
      Option Schema
      → List (Option (Source Schema))
      → Result ((Schema × Engine Baked Validation Report) × List (Source Schema))
  unfolding new_base
  new_loader schema given = do base ← new_base schema; ss ← bind given; ok (base, ss)

  -- Load
  unfoldable pub load_once :
      Context
      → ℕ
      → Option Schema
      → List (Option (Source Schema))
      → Result (Snapshot Baked Validation Report)
  unfolding new_loader
  load_once ctx now schema given = do
    l ← new_loader schema given
    s ← load g l.0.1 l.0.0 ctx now l.1
    ok (record s { version = 1 })

  -- LoadAs, where `decode` is the decoding of the baked values into a type of the caller.
  unfoldable pub load_as :
      {A : Type 0}
      → (Baked → Result A)
      → Context
      → ℕ
      → Option Schema
      → List (Option (Source Schema))
      → Result A
  unfolding load_once with_degraded
  load_as decode ctx now schema given = load_once ctx now schema given >>= λ s.
      elim (decode s.baked) [ ok a ↦ ok a | err e ↦ err (with_degraded e s.degraded) ]

  -- The two ways to load once agree: `Load` is `New` followed by `Loader.Load`, errors included.
  pub load_once_lem :
      (ctx : Context) (now : ℕ) (schema : Schema) (given : List (Option (Source Schema)))
      → load_once ctx now (some schema) given
        ≡ (compile schema >>= λ engine. load_first g engine schema ctx now given)
  unfolding load_once load_first
  load_once_lem ctx now schema given = elim (Result-cases (compile schema)) [
    | inr (e, fails) ↦ rw (fails) refl
    | inl (engine, compiled) ↦ rw (compiled) (elim (Result-cases (bind given)) [
      | inr (e, refused) ↦ rw (refused) refl
      | inl (ss, bound) ↦ rw (bound) refl
    ])
  ]
