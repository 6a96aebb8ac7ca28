-- ===== src/Merge/Provenance.antt =====
-- The histories of paths: what `add`, `invalidate`, `recordTree` and `mergeMap` write into them.
use native.Mathlib.Decide.{dec_le}
use mathlib.Core.Path.{subst}
use xconf.Prelude.{
  ℕ, zero, suc, ◌≤◌, ◌<◌, ◌≡◌, refl, ◌∙◌, ◌⊎◌, inl, inr, none, some, List, [], ◌∷◌, ◌++◌, arith,
  Option-cases, Bool-cases, if◌then◌else◌,
}
use xconf.Text.{Str, has_prefix}
use xconf.Text.Laws.{str_eq_iff}
use xconf.Text.Dict.{Dict, lookup}
use xconf.Pointer.{FieldPath, pointer, slash}
use xconf.Pointer.Laws.{IsBelow, has_prefix-pointer_iff}
use xconf.Layer.{Location, Origin}
use xconf.Merge.{Origins, take, nearest, append_below, invalidate}

lookup-append_below :
    (k prefix : Str) (o : Origin) (os : Origins)
    → lookup k (append_below prefix o os) ≡ elim (lookup k os) [
      | none ↦ none
      | some history ↦ some (if has_prefix k prefix then history ++ o ∷ [] else history)
    ]
unfolding lookup append_below
lookup-append_below k prefix o [] = refl
lookup-append_below k prefix o ((j, history) ∷ os) =
    ground (arith, str_eq_iff j k, lookup-append_below k prefix o os)

-- `invalidate` appends its record to the history of each strict descendant of the path that has
-- one.
pub invalidate_below :
    (p q : FieldPath) (o : Origin) (os : Origins) (history : List Origin)
    → IsBelow p q
    → lookup (pointer q) os ≡ some history
    → lookup (pointer q) (invalidate p o os) ≡ some (history ++ o ∷ [])
unfolding invalidate
invalidate_below p q o os history b e =
    rw (lookup-append_below, e, (has_prefix-pointer_iff p q).1 b) refl

-- It changes no other history: not that of the path, of its ancestors, of a sibling, nor that of a
-- path whose first differing segment merely begins with the same letters; and it makes none.
pub invalidate_elsewhere :
    (p q : FieldPath) (o : Origin) (os : Origins)
    → ¬ IsBelow p q ⊎ (lookup (pointer q) os ≡ none)
    → lookup (pointer q) (invalidate p o os) ≡ lookup (pointer q) os
unfolding invalidate
invalidate_elsewhere p q o os (inl apart) =
    elim (Bool-cases (has_prefix (pointer q) (pointer p ++ slash ∷ []))) [
      | inl hit ↦ absurd (apart ((has_prefix-pointer_iff p q).0 hit))
      | inr miss ↦ rw lookup-append_below (elim (Option-cases (lookup (pointer q) os)) [
        | inl e ↦ rw e refl
        | inr (history, e) ↦ rw (e, miss) refl
      ])
    ]
invalidate_elsewhere p q o os (inr absent) = rw (lookup-append_below, absent) refl

-- A location is inherited from the nearest ancestor: `nearest` returns the location of a prefix,
-- and no longer prefix has one.
pub nearest_lem :
    (n : ℕ) (p : FieldPath) (locs : Dict Location) (loc : Location)
    → nearest n p locs ≡ some loc
    → (m : ℕ) × (m ≤ n)
      × (lookup (pointer (take m p)) locs ≡ some loc)
      × ((i : ℕ) → m < i → i ≤ n → lookup (pointer (take i p)) locs ≡ none)
unfolding nearest
nearest_lem zero p locs loc e =
    (0, omega arith, unfold take pointer in e, λ i a b. absurd (omega arith))
nearest_lem (suc n) p locs loc e = elim (Option-cases (lookup (pointer (take (suc n) p)) locs)) [
  | inl miss ↦
      let (m, below, found, others) = nearest_lem n p locs loc (rw (miss, nearest) at e) in
      (
        m,
        omega arith,
        found,
        λ i a b. elim (dec_le i n) [
          | yes within ↦ others i a within
          | no beyond ↦
              subst (λ (x : ℕ). lookup (pointer (take x p)) locs ≡ none) {x = suc n} {y = i}
                (omega arith) miss
        ],
      )
  | inr (hit, there) ↦
      (suc n, omega arith, there ∙ (rw (there, nearest) at e), λ i a b. absurd (omega arith))
]
