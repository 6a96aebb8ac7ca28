-- ===== src/Layer/Clone/Laws.antt =====
-- The copies of layers.
use xconf.Prelude.{◌≡◌, refl, Option, none, some, List, [], ◌∷◌, arith}
use xconf.Error.{ok, Yields}
use xconf.Value.{plain, obj, Fields}
use xconf.Value.Clone.Laws.{clone-clone}
use xconf.Layer.{Edit, Layer}
use xconf.Layer.Clone.{clone_edits, clone_values, clone_layer}

pub clone_layer-revision :
    (l : Layer) → Yields (λ c. (c.revision ≡ l.revision) × (c.stale ≡ l.stale)) (clone_layer l)
unfolding clone_layer
clone_layer-revision l = ground arith

edits_again : (es : List Edit) → Yields (λ c. clone_edits c ≡ ok c) (clone_edits es)
unfolding clone_edits
edits_again [] = refl
edits_again (e ∷ es) = ground (arith, clone-clone e.value 0, edits_again es)

values_again : (v : Option Fields) → Yields (λ c. clone_values c ≡ ok c) (clone_values v)
unfolding clone_values
values_again none = refl
values_again (some m) = ground (arith, clone-clone (obj plain m) 0)

-- The edits and the values are copies already. The other fields do not matter.
abbrev pub IsCopied : Layer → Type 0
IsCopied l = (clone_edits l.edits ≡ ok l.edits) × (clone_values l.values ≡ ok l.values)

-- What `cloneLayer` returns is a copy, with the revision, the locations and the error of its
-- argument.
pub clone_layer-IsCopied :
    (l : Layer)
    → Yields
        (λ c.
          IsCopied c
          × (c.revision ≡ l.revision)
          × (c.locations ≡ l.locations)
          × (c.stale ≡ l.stale))
        (clone_layer l)
unfolding clone_layer
clone_layer-IsCopied l = ground (arith, edits_again l.edits, values_again l.values)

pub clone_layer-copied : (l : Layer) → IsCopied l → clone_layer l ≡ ok l
unfolding clone_layer
clone_layer-copied l c = rw (c.0, c.1) refl
