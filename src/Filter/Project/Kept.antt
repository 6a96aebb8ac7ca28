-- ===== src/Filter/Project/Kept.antt =====
-- What is read from the values that `AllowPaths` projects.
use mathlib.Core.Option.{some-injective}
use mathlib.Core.Path.{subst}
use xconf.Prelude.{
  ◌≡◌, refl, sym, ◌∙◌, inl, inr, true, false, Option, none, some, List, [], ◌∷◌, arith,
  Option-cases,
}
use xconf.Text.{Str}
use xconf.Pointer.{FieldPath}
use xconf.Value.{Value, plain, named, obj, Fields, get, as_map}
use xconf.Value.Ordered.{get_path}
use xconf.Merge.Untouched.{below, below-get}
use xconf.Filter.{Selection, node, Children, get_child}
use xconf.Filter.Paths.{
  at, covers, allow_paths, any_prefix, covers-allow_paths, IsTrie, AllTries, allow_paths-IsTrie,
}
use xconf.Filter.Project.{project, project_children, project_values, keep_fields, on_member}
use xconf.Filter.Project.Laws.{kept_at, project_step, child_IsTrie, below-keep_fields}

-- Through a value that is no object no path goes.
no_object : (k : Str) (p : FieldPath) (v : Value) → as_map v ≡ none → get_path (k ∷ p) v ≡ none
unfolding get_path
no_object k p v e = rw (e, get_path) refl

module _ (k : Str) (p : FieldPath) (cs : Children) where
  project_other : (v : Value) → as_map v ≡ none → project (node false cs) v ≡ none
  unfolding project
  project_other v e = ground arith

  project_object :
      (m : Fields)
      → AllTries cs
      → below (k ∷ p) (project (node false cs) (obj plain m))
        ≡ below p (kept_at (get_child k cs) (get k m))
  unfolding project as_map
  project_object m t = below-keep_fields k p (project_children cs m) ∙ project_step k p cs m t

not_covered :
    (k : Str) (p : FieldPath) (cs : Children)
    → get_child k cs ≡ none
    → covers (node false cs) (k ∷ p) ≡ false
unfolding at
not_covered k p cs e = ground arith

covered :
    (k : Str) (p : FieldPath) (cs : Children) (c : Selection)
    → get_child k cs ≡ some c
    → covers (node false cs) (k ∷ p) ≡ covers c p
unfolding at
covered k p cs c e = ground arith

member_kept :
    (p : FieldPath) (f : Value → Option Value) (o : Option Value)
    → ((w : Value) → below p (f w) ≡ get_path p w)
    → below p (on_member f o) ≡ below p o
member_kept p f none same = refl
member_kept p f (some w) same = same w

member_dropped :
    (p : FieldPath) (f : Value → Option Value) (o : Option Value)
    → ((w : Value) → below p (f w) ≡ none)
    → below p (on_member f o) ≡ none
member_dropped p f none gone = refl
member_dropped p f (some w) gone = gone w

kept :
    (p : FieldPath) (s : Selection) (v : Value)
    → IsTrie s
    → covers s p ≡ true
    → below p (project s v) ≡ get_path p v
kept p (node true cs) v t h = unfold project in refl
kept [] (node false cs) v t h = unfold at in cc
kept (k ∷ p) (node false cs) (obj plain m) t h = elim (Option-cases (get_child k cs)) [
  | inl e ↦ cc (h, not_covered k p cs e)
  | inr (c, e) ↦
      project_object k p cs m t
      ∙ rw e (
          member_kept p (project c) (get k m)
            (λ w. kept p c w (child_IsTrie k cs c t e) (sym (covered k p cs c e) ∙ h))
          ∙ sym (below-get k p m))
]
kept (k ∷ p) (node false cs) (obj named m) t h =
    rw (project_other k p cs (obj named m) (unfold as_map in refl))
      (sym (no_object k p (obj named m) (unfold as_map in refl)))
kept (k ∷ p) (node false cs) v t h =
    rw (project_other k p cs v (unfold as_map in refl))
      (sym (no_object k p v (unfold as_map in refl)))

at_child :
    (k : Str) (p : FieldPath) (cs : Children) (c : Selection)
    → get_child k cs ≡ some c
    → at (k ∷ p) (node false cs) ≡ at p c
unfolding at
at_child k p cs c e = rw (e, at) refl

dropped :
    (p : FieldPath) (s : Selection) (v : Value)
    → IsTrie s
    → at p s ≡ none
    → below p (project s v) ≡ none
dropped [] s v t h = unfold at in cc
dropped (k ∷ p) (node true cs) v t h = unfold at in cc
dropped (k ∷ p) (node false cs) (obj plain m) t h = elim (Option-cases (get_child k cs)) [
  | inl e ↦ project_object k p cs m t ∙ rw e refl
  | inr (c, e) ↦
      project_object k p cs m t
      ∙ rw e (
          member_dropped p (project c) (get k m)
            λ w. dropped p c w (child_IsTrie k cs c t e) (sym (at_child k p cs c e) ∙ h))
]
dropped (k ∷ p) (node false cs) (obj named m) t h =
    rw (project_other k p cs (obj named m) (unfold as_map in refl)) refl
dropped (k ∷ p) (node false cs) v t h = rw (project_other k p cs v (unfold as_map in refl)) refl

-- The values that a selection keeps of a layer, read at a path.
values_at :
    (s : Selection) (m out : Fields) (k : Str) (p : FieldPath)
    → project_values s (some m) ≡ some out
    → get_path (k ∷ p) (obj plain out) ≡ below (k ∷ p) (project s (obj plain m))
unfolding project_values as_map
values_at (node true cs) m out k p e = ground (arith)
values_at (node false cs) m out k p e =
    subst
      (λ (x : Fields).
        get_path (k ∷ p) (obj plain x) ≡ below (k ∷ p) (keep_fields (project_children cs m)))
      (some-injective (project_children cs m) out e)
      (sym (below-keep_fields k p (project_children cs m)))

-- `AllowPaths` keeps the values at and below the given paths as they are, and where the selection
-- does not reach, at a path with no given path above or below it, it leaves nothing.
pub project_values-allow_paths :
    (ps : List FieldPath) (m out : Fields) (k : Str) (p : FieldPath)
    → project_values (allow_paths ps) (some m) ≡ some out
    → (any_prefix ps (k ∷ p) ≡ true
        → get_path (k ∷ p) (obj plain out) ≡ get_path (k ∷ p) (obj plain m))
      × (at (k ∷ p) (allow_paths ps) ≡ none → get_path (k ∷ p) (obj plain out) ≡ none)
project_values-allow_paths ps m out k p e = (
  λ h.
      values_at (allow_paths ps) m out k p e
      ∙ kept (k ∷ p) (allow_paths ps) (obj plain m) (allow_paths-IsTrie ps)
          (covers-allow_paths ps (k ∷ p) ∙ h),
  λ h.
      values_at (allow_paths ps) m out k p e
      ∙ dropped (k ∷ p) (allow_paths ps) (obj plain m) (allow_paths-IsTrie ps) h,
)
