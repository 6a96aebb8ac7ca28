-- ===== src/Sources.antt =====
-- The sources of sources.go: `SourceFunc`, `Optional`, and in the modules below `Memory` and
-- `Resilient`.
pub mod Memory
pub mod Resilient
pub mod Poll
use xconf.Prelude.{Bool, true, false, Option, none, some}
use xconf.Error.{Error, Result, ok, err, is_not_found, nil_reader}
use xconf.Layer.{Layer, no_layer}

-- SourceFunc.Read, where a nil ReadFunc is none.
unfoldable pub func_read :
    {Schema : Type 0} → Option (Schema → Result Layer) → Schema → Result Layer
func_read none schema = err nil_reader
func_read (some f) schema = f schema

-- optional.Read: only an error that is ErrNotFound, directly or wrapped, becomes an empty layer.
unfoldable pub optional_read : Result Layer → Result Layer
unfolding is_not_found
optional_read (ok l) = ok l
optional_read (err e) = elim (is_not_found e) [ true ↦ ok no_layer | false ↦ err e ]
