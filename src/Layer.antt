-- ===== src/Layer.antt =====
-- `Location`, `Origin`, `Edit` and `Layer` of xconf.go.
pub mod Clone
use xconf.Prelude.{ℕ, Option, none, List, []}
use xconf.Text.{Str}
use xconf.Text.Dict.{Dict}
use xconf.Pointer.{FieldPath}
use xconf.Value.{Value, Fields}
use xconf.Error.{Error}

pub record Location : Type 0 where
  pub name : Str
  pub line : ℕ
  pub column : ℕ

abbrev pub no_location : Location
no_location = record { name = []; line = 0; column = 0 }

pub record Origin : Type 0 where
  pub source : Str
  pub revision : Str
  pub operation : Str
  pub location : Location

-- EditKind is a byte: a value that is neither Replace nor Delete is possible.
pub data EditKind : Type 0 where
  replace delete : EditKind
  unknown : ℕ → EditKind

pub record Edit : Type 0 where
  pub kind : EditKind
  pub path : FieldPath
  pub value : Value

-- `values` is none for a nil map, `stale` is none for a nil error.
pub record Layer : Type 0 where
  pub values : Option Fields
  pub revision : Str
  pub locations : Dict Location
  pub edits : List Edit
  pub stale : Option Error

-- Layer{}
abbrev pub no_layer : Layer
no_layer = record { values = none; revision = []; locations = []; edits = []; stale = none }
