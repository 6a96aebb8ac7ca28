-- ===== src/Filter/Project/Laws.antt =====
-- Reading the projected values, and where the projected edits go.
use mathlib.Core.Option.{some-injective}
use mathlib.Core.Path.{subst}
use xconf.Prelude.{
  ◌≡◌, refl, ap, sym, ◌∙◌, inl, inr, Option, none, some, ◌∷◌, arith, if◌then◌else◌, Bool-cases,
}
use xconf.Text.{Str, str_eq}
use xconf.Text.Laws.{str_eq_iff, StrLt-ne}
use xconf.Pointer.{FieldPath}
use xconf.Value.{Value, plain, obj, Fields, end, field, get}
use xconf.Value.Maps.{get-put}
use xconf.Value.Ordered.{get_path}
use xconf.Merge.Override.{get_path_absent}
use xconf.Merge.Untouched.{below, below-get}
use xconf.Filter.{Selection, Children, leaf, branch, get_child}
use xconf.Filter.Paths.{After, IsTrie, AllTries}
use xconf.Filter.Project.{project, project_children, keep_fields, put_kept, on_member}

pub After-none : (k : Str) (cs : Children) → After k cs → get_child k cs ≡ none
unfolding get_child
After-none k leaf a = refl
After-none k (branch j s cs) a =
    ground (arith, str_eq_iff j k, StrLt-ne k j a.0, After-none k cs a.1)

abbrev pub kept_at : Option Selection → Option Value → Option Value
kept_at none w = none
kept_at (some s) w = on_member (project s) w

get-put_kept :
    (k j : Str) (v : Option Value) (m : Fields)
    → get k (put_kept j v m)
      ≡ (if str_eq j k then (elim v [ none ↦ get k m | some w ↦ some w ]) else get k m)
get-put_kept k j none m = ground arith
get-put_kept k j (some v) m = get-put k j v m

-- What the projection holds at a key.
get-project_children :
    (k : Str) (cs : Children) (m : Fields)
    → AllTries cs
    → get k (project_children cs m) ≡ kept_at (get_child k cs) (get k m)
unfolding project get_child
get-project_children k leaf m t = unfold get in refl
get-project_children k (branch j s cs) m t = ground (
  arith,
  get-put_kept k j (on_member (project s) (get j m)) (project_children cs m),
  get-project_children k cs m t.2,
  After-none j cs t.0,
  str_eq_iff j k,
)

pub below-keep_fields :
    (k : Str) (p : FieldPath) (m : Fields)
    → below (k ∷ p) (keep_fields m) ≡ get_path (k ∷ p) (obj plain m)
unfolding get
below-keep_fields k p end = sym (get_path_absent k p end refl)
below-keep_fields k p (field j v m) = refl

-- The projection of an object, one member further.
pub project_step :
    (k : Str) (p : FieldPath) (cs : Children) (m : Fields)
    → AllTries cs
    → get_path (k ∷ p) (obj plain (project_children cs m))
      ≡ below p (kept_at (get_child k cs) (get k m))
project_step k p cs m t =
    below-get k p (project_children cs m) ∙ ap (below p) (get-project_children k cs m t)

pub child_IsTrie :
    (k : Str) (cs : Children) (c : Selection) → AllTries cs → get_child k cs ≡ some c → IsTrie c
unfolding get_child
child_IsTrie k leaf c t e = cc
child_IsTrie k (branch j s cs) c t e = elim (Bool-cases (str_eq j k)) [
  | inl hit ↦ subst IsTrie (some-injective s c (rw hit at e)) t.1
  | inr away ↦ child_IsTrie k cs c t.2 (rw away at e)
]
