-- ===== src/Tests/Filtering.antt =====
-- Filtering, run on the layers, and the data of sources.go and of documents.
use xconf.Prelude.{◌≡◌, refl, true, false, ◌+◌, none, some, [], ◌∷◌, leb, All, if◌then◌else◌}
use xconf.Text.{str_eq, str}
use xconf.Pointer.{pointer, parse_pointer}
use xconf.Pointer.Laws.{parse_pointer-pointer}
use xconf.Error.{Yields, ok, err, external, deep_input}
use xconf.Value.{get, put, as_map, Value, obj, plain, named, text, end, field}
use xconf.Value.Ordered.{get_path}
use xconf.Value.Clone.{clone}
use xconf.Value.Clone.Laws.{IsNative, height, clone-IsNative, clone_native}
use xconf.Layer.{replace, Edit, Layer, no_layer}
use xconf.Filter.{Selection, node, branch, leaf}
use xconf.Filter.Paths.{allow_paths, at, covers, any_prefix, is_prefix, covers-allow_paths}
use xconf.Filter.Project.{project_values, project_edit}
use xconf.Filter.Project.Kept.{project_values-allow_paths}
use xconf.Filter.Project.Edits.{project_edit-allow_paths}
use xconf.Filter.Read.{filter_read}
use xconf.Filter.Read.Laws.{filter_read-stale}
use xconf.Tests.{getters, db, host, word, db_host, db_port, lower}

abbrev kept : Value
kept = obj plain (field db (obj plain (field host (text plain (str "old")) end)) end)

project_values-allow_paths_example :
    (any_prefix (db_host ∷ []) db_host ≡ true
      → get_path db_host kept ≡ get_path db_host (obj plain lower))
    × (at db_host (allow_paths (db_host ∷ [])) ≡ none → get_path db_host kept ≡ none)
unfolding project_values allow_paths get str_eq as_map put
project_values-allow_paths_example =
    project_values-allow_paths (db_host ∷ []) lower
      (field db (obj plain (field host (text plain (str "old")) end)) end) db (host ∷ []) refl

abbrev replace_db : Edit
replace_db = record { kind = replace; path = db ∷ []; value = obj plain (field host word end) }

abbrev only_host : Selection
only_host = node false (branch host (node true leaf) leaf)

project_edit-allow_paths_example :
    All
      (λ d. (any_prefix (db_host ∷ []) d.path ≡ true) × (is_prefix (db ∷ []) d.path ≡ true))
      (project_edit only_host replace_db)
unfolding at allow_paths str_eq
project_edit-allow_paths_example = project_edit-allow_paths (db_host ∷ []) replace_db only_host refl

covers-allow_paths_example :
    covers (allow_paths (db_host ∷ [])) db_port ≡ any_prefix (db_host ∷ []) db_port
covers-allow_paths_example = covers-allow_paths (db_host ∷ []) db_port

abbrev degraded_layer : Layer
degraded_layer = record no_layer {
  values = some lower;
  revision = str "7";
  stale = some (external 1);
}

filter_read-stale_example :
    Yields
      (λ out. (out.revision ≡ str "7") × (out.stale ≡ none))
      (filter_read getters (allow_paths (db_host ∷ [])) 0 (ok degraded_layer))
filter_read-stale_example = filter_read-stale getters (allow_paths (db_host ∷ [])) 0 degraded_layer

parse_pointer-pointer_example : parse_pointer (pointer (str "a/b~" ∷ [])) ≡ some (str "a/b~" ∷ [])
parse_pointer-pointer_example = parse_pointer-pointer (str "a/b~" ∷ [])

abbrev defined_type : Value
defined_type = obj named (field host (text named (str "h")) end)

clone_native_example :
    clone (obj plain lower) 0
    ≡ (if leb (0 + height (obj plain lower)) 128 then ok (obj plain lower) else err deep_input)
clone_native_example = clone_native (obj plain lower) 0 (tt, ((tt, (tt, (tt, tt))), tt))

clone-IsNative_example : Yields IsNative (clone defined_type 0)
clone-IsNative_example = clone-IsNative defined_type 0
