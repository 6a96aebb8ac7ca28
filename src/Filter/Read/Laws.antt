-- ===== src/Filter/Read/Laws.antt =====
-- What a filtered read returns on each of its branches.
use xconf.Prelude.{◌≡◌, refl, none, some, [], arith}
use xconf.Error.{Error, Result, ok, err, Yields}
use xconf.Schema.{Getters}
use xconf.Layer.{Layer}
use xconf.Layer.Clone.{clone_layer}
use xconf.Filter.{Selection}
use xconf.Filter.Project.{project_values}
use xconf.Filter.Read.{validate, filter_layer, filter_read}

clone_layer-revision : (l : Layer) → Yields (λ c. c.revision ≡ l.revision) (clone_layer l)
unfolding clone_layer
clone_layer-revision l = ground arith

filter_layer_lem :
    (s : Selection) (l : Layer)
    → Yields
        (λ out.
          (out.revision ≡ l.revision)
          × (out.stale ≡ none)
          × (out.values ≡ project_values s l.values))
        (filter_layer s l)
unfolding filter_layer
filter_layer_lem s l = ground arith

module _ {Schema Field : Type 0} (g : Getters Schema Field) (s : Selection) (schema : Schema) where
  -- A selection that the schema does not allow is refused, whatever the source below would return.
  pub filter_read-invalid :
      (inner : Result Layer) (e : Error)
      → validate g schema s (some schema) none [] ≡ err e
      → filter_read g s schema inner ≡ err e
  unfolding filter_read
  filter_read-invalid inner e h = rw (h, filter_read) refl

  -- With a selection that the schema allows, an error of the source below is passed on as it is.
  pub filter_read-err :
      (e : Error)
      → validate g schema s (some schema) none [] ≡ ok tt
      → filter_read g s schema (err e) ≡ err e
  unfolding filter_read
  filter_read-err e h = rw (h, filter_read) refl

  -- A filtered layer keeps the revision of the layer below, and is never stale, although the layer
  -- below may be: the error of a source that fails is lost.
  pub filter_read-stale :
      (l : Layer)
      → Yields
          (λ out. (out.revision ≡ l.revision) × (out.stale ≡ none))
          (filter_read g s schema (ok l))
  unfolding filter_read
  filter_read-stale l = ground arith
