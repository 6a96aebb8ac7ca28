-- ===== src/Layer/Clone.antt =====
-- `cloneLayer` of sources.go.
pub mod Laws
use xconf.Prelude.{Option, none, some, List, [], ◌∷◌}
use xconf.Error.{Result, ok, err, ◌>>=◌}
use xconf.Value.{Value, plain, obj, Fields}
use xconf.Value.Clone.{clone}
use xconf.Layer.{Edit, Layer}

unfoldable pub clone_edits : List Edit → Result (List Edit)
unfolding clone
clone_edits [] = ok []
clone_edits (e ∷ es) = do
  v ← clone e.value 0
  rest ← clone_edits es
  ok (record e { value = v } ∷ rest)

-- The copy of `Values`, a nil map left as it is; the assertion to map[string]any always holds.
unfoldable pub clone_values : Option Fields → Result (Option Fields)
unfolding clone
clone_values none = ok none
clone_values (some m) = do
  v ← clone (obj plain m) 0
  ok (elim v [ obj s out ↦ some out | _ ↦ none ])

unfoldable pub clone_layer : Layer → Result Layer
unfolding clone_edits clone_values
clone_layer l = do
  edits ← clone_edits l.edits
  values ← clone_values l.values
  ok (record l { values = values; edits = edits })
