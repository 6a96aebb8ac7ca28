-- ===== src/Filter.antt =====
-- `AllowPaths` of filter.go: a source restricted to some paths and what lies below them.
pub mod Paths
pub mod Project
pub mod Read
use xconf.Prelude.{ℕ, Bool, true, false, Option, none, some, List, [], ◌∷◌, if◌then◌else◌}
use xconf.Text.{Str, str_eq}
use xconf.Pointer.{FieldPath}

-- pathSelection: `all`, and the children in the order of their keys.
mutual
  pub data Selection : Type 0 where
    node : Bool → Children → Selection

  pub data Children : Type 0 where
    leaf : Children
    branch : Str → Selection → Children → Children

abbrev pub all_of : Selection → Bool
all_of (node all cs) = all

abbrev pub children_of : Selection → Children
children_of (node all cs) = cs

-- &pathSelection{}
abbrev pub nothing : Selection
nothing = node false leaf

-- s.children[key]
unfoldable pub get_child : Str → Children → Option Selection
get_child k leaf = none
get_child k (branch j s cs) = if str_eq j k then some s else get_child k cs
