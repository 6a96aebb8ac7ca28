-- ===== src/Filter/Project/Edits.antt =====
-- Where the projection of an edit goes.
use mathlib.Core.Option.{some-injective}
use mathlib.Core.Path.{subst}
use xconf.Prelude.{
  ◌≡◌, refl, sym, ◌∙◌, inl, inr, true, false, some, List, [], ◌∷◌, ◌++◌, arith, Option-cases, All,
}
use xconf.Text.{Str}
use xconf.Text.Laws.{str_eq_refl, str_eq_iff}
use xconf.Pointer.{FieldPath, child}
use xconf.Layer.{Edit}
use xconf.Filter.{Selection, node, Children, leaf, branch, all_of, get_child}
use xconf.Filter.Paths.{
  at, covers, is_prefix, After, IsTrie, AllTries, allow_paths, any_prefix, covers-allow_paths,
  allow_paths-IsTrie,
}
use xconf.Filter.Project.Laws.{After-none, child_IsTrie}
use xconf.Filter.Project.{child_edit, project_edit, project_edits}

All-append {ℓ κ} :
    {A : Type ℓ} (P : A → Type κ) (xs ys : List A) → All P xs → All P ys → All P (xs ++ ys)
All-append P [] ys h k = k
All-append P (x ∷ xs) ys h k = (h.0, All-append P xs ys h.1 k)

All-weaken {ℓ κ} :
    {A : Type ℓ} (P Q : A → Type κ) (xs : List A) → ((x : A) → P x → Q x) → All P xs → All Q xs
All-weaken P Q [] f h = tt
All-weaken P Q (x ∷ xs) f h = (f x h.0, All-weaken P Q xs f h.1)

path-child_edit : (k : Str) (e : Edit) → (child_edit k e).path ≡ child e.path k
unfolding child_edit
path-child_edit k e = ground arith

-- Below `p` the selection goes on as its part at `p` does.
at-child :
    (p : FieldPath) (s : Selection) (k : Str) (cs : Children) (c : Selection)
    → at p s ≡ some (node false cs)
    → get_child k cs ≡ some c
    → at (child p k) s ≡ some c
unfolding at child
at-child [] (node true ds) k cs c e f = cc
at-child [] (node false ds) k cs c e f = ground arith
at-child (j ∷ p) (node true ds) k cs c e f = cc
at-child (j ∷ p) (node false ds) k cs c e f = elim (Option-cases (get_child j ds)) [
  | inl g ↦ ground arith
  | inr (d, g) ↦ ground (arith, at-child p d k cs c)
]

covers-at :
    (p : FieldPath) (s c : Selection) → at p s ≡ some c → all_of c ≡ true → covers s p ≡ true
covers-at p s c e h = rw (e, covers) h

is_prefix_refl : (p : FieldPath) → is_prefix p p ≡ true
is_prefix_refl [] = refl
is_prefix_refl (k ∷ p) = ground (arith, str_eq_refl k, is_prefix_refl p)

is_prefix-child :
    (p : FieldPath) (k : Str) (q : FieldPath)
    → is_prefix (child p k) q ≡ true
    → is_prefix p q ≡ true
unfolding child
is_prefix-child [] k q h = refl
is_prefix-child (j ∷ p) k [] h = cc
is_prefix-child (j ∷ p) k (i ∷ q) h = ground (arith, is_prefix-child p k q)

later_child :
    (k j : Str) (s c : Selection) (cs : Children)
    → After k cs
    → get_child j cs ≡ some c
    → get_child j (branch k s cs) ≡ some c
unfolding get_child
later_child k j s c cs a e = ground (arith, str_eq_iff k j, After-none k cs a)

first_child : (k : Str) (s : Selection) (cs : Children) → get_child k (branch k s cs) ≡ some s
unfolding get_child
first_child k s cs = rw str_eq_refl refl

-- An edit at or below the path of another, and within the selection.
abbrev pub IsWithin : Selection → FieldPath → Edit → Type 0
IsWithin s p e = (covers s e.path ≡ true) × (is_prefix p e.path ≡ true)

module _ (s : Selection) where
  mutual
    unfolding project_edit get_child

    IsWithin-edit :
        (c : Selection) (e : Edit)
        → IsTrie c
        → at e.path s ≡ some c
        → All (IsWithin s e.path) (project_edit c e)
    IsWithin-edit (node true cs) e t h =
        ((covers-at e.path s (node true cs) h refl, is_prefix_refl e.path), tt)
    IsWithin-edit (node false cs) e t h = IsWithin-edits cs e cs t h (λ k c f. f)

    IsWithin-edits :
        (ds : Children) (e : Edit) (cs : Children)
        → AllTries ds
        → at e.path s ≡ some (node false cs)
        → ((k : Str) (c : Selection) → get_child k ds ≡ some c → get_child k cs ≡ some c)
        → All (IsWithin s e.path) (project_edits ds e)
    IsWithin-edits leaf e cs t h sub = tt
    IsWithin-edits (branch k c ds) e cs t h sub =
        All-append (IsWithin s e.path) (project_edit c (child_edit k e)) (project_edits ds e)
          (All-weaken (IsWithin s (child_edit k e).path) (IsWithin s e.path)
            (project_edit c (child_edit k e))
            (λ d w. (w.0, is_prefix-child e.path k d.path (rw path-child_edit at w.1)))
            (IsWithin-edit c (child_edit k e) t.1
              (rw path-child_edit (at-child e.path s k cs c h (sub k c (first_child k c ds))))))
          (IsWithin-edits ds e cs t.2 h (λ j d f. sub j d (later_child k j c d ds t.0 f)))

at-IsTrie : (p : FieldPath) (s c : Selection) → IsTrie s → at p s ≡ some c → IsTrie c
unfolding at
at-IsTrie [] s c t e = subst IsTrie (some-injective s c e) t
at-IsTrie (k ∷ p) (node true cs) c t e = subst IsTrie (some-injective (node true cs) c e) t
at-IsTrie (k ∷ p) (node false cs) c t e = elim (Option-cases (get_child k cs)) [
  | inl g ↦ ground arith
  | inr (d, g) ↦ at-IsTrie p d c (child_IsTrie k cs d t g) (ground arith)
]

-- Every edit that `projectEdit` makes of an edit whose path the selection reaches lies within the
-- paths given to `AllowPaths`, and at or below the path of that edit.
pub project_edit-allow_paths :
    (ps : List FieldPath) (e : Edit) (c : Selection)
    → at e.path (allow_paths ps) ≡ some c
    → All (λ d. (any_prefix ps d.path ≡ true) × (is_prefix e.path d.path ≡ true)) (project_edit c e)
project_edit-allow_paths ps e c h =
    All-weaken (IsWithin (allow_paths ps) e.path) _ (project_edit c e)
      (λ d w. (sym (covers-allow_paths ps d.path) ∙ w.0, w.1))
      (IsWithin-edit (allow_paths ps) c e
        (at-IsTrie e.path (allow_paths ps) c (allow_paths-IsTrie ps) h) h)
