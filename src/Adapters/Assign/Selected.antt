-- ===== src/Adapters/Assign/Selected.antt =====
-- Bindings of names to paths that do not overlap, and the values that are there for them.
use xconf.Prelude.{◌≡◌, refl, ◌≢◌, Option, none, some, List, [], ◌∷◌, All}
use xconf.Text.{Str}
use xconf.Text.Dict.{Dict}
use xconf.Pointer.{FieldPath}
use xconf.Value.{Value}
use xconf.Merge.Edits.Apart.{IsApart}
use xconf.Adapters.Assign.Overlap.{AllApart}

-- No path is empty, and none is a later one, an ancestor or a descendant of it.
abbrev pub IsDisjoint : Dict FieldPath → Type 0
IsDisjoint [] = Unit
IsDisjoint ((name, p) ∷ bs) = (p ≢ []) × All (λ b. IsApart p b.1) bs × IsDisjoint bs

module _ (find : Str → Option Value) where
  -- The values that are there, at their paths.
  abbrev pub selected : Dict FieldPath → List (FieldPath × Value)
  selected [] = []
  selected ((name, p) ∷ bs) = elim (find name) [
    | none ↦ selected bs
    | some v ↦ (p, v) ∷ selected bs
  ]

  pub selected-none :
      (name : Str) (p : FieldPath) (bs : Dict FieldPath)
      → find name ≡ none
      → selected ((name, p) ∷ bs) ≡ selected bs
  selected-none name p bs e = rw (e, selected) refl

  pub selected-some :
      (name : Str) (p : FieldPath) (bs : Dict FieldPath) (v : Value)
      → find name ≡ some v
      → selected ((name, p) ∷ bs) ≡ (p, v) ∷ selected bs
  selected-some name p bs v e = rw (e, selected) refl

  All-selected :
      (P : FieldPath → Type 0) (bs : Dict FieldPath)
      → All (λ b. P b.1) bs
      → All (λ w. P w.0) (selected bs)
  All-selected P [] a = tt
  All-selected P ((name, p) ∷ bs) a =
      let later = All-selected P bs a.1 in
      elim (find name)
        as (λ o.
          All (λ w. P w.0)
            (elim o as (λ x. List (FieldPath × Value)) [
              | none ↦ selected bs
              | some v ↦ (p, v) ∷ selected bs
            ])) [ none ↦ later | some v ↦ (a.0, later) ]

  pub AllApart-selected : (bs : Dict FieldPath) → IsDisjoint bs → AllApart (selected bs)
  AllApart-selected [] d = tt
  AllApart-selected ((name, p) ∷ bs) (n, a, d) =
      let later = AllApart-selected bs d in
      elim (find name)
        as (λ o. AllApart (elim o as (λ x. List (FieldPath × Value)) [
          | none ↦ selected bs
          | some v ↦ (p, v) ∷ selected bs
        ])) [ none ↦ later | some v ↦ (n, All-selected (IsApart p) bs a, later) ]
