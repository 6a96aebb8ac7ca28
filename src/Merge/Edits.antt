-- ===== src/Merge/Edits.antt =====
-- What an edit leaves: the written path, and the paths apart from it.
pub mod Apart
pub mod Reached
use mathlib.Core.Option.{some-injective}
use mathlib.Core.Path.{subst}
use xconf.Prelude.{
  ◌≡◌, refl, ap, sym, ◌∙◌, ◌⊎◌, inl, inr, ◌≢◌, Bool, true, false, Option, none, some, List, [], ◌∷◌,
  arith, Option-cases, Bool-cases,
}
use xconf.Text.{Str, str_eq}
use xconf.Text.Laws.{str_eq_iff, str_eq_refl}
use xconf.Pointer.{FieldPath}
use xconf.Error.{Result, ok, err, ◌>>=◌, edit_parent, Yields}
use xconf.Value.{Value, plain, named, obj, Fields, end, field, get, put, remove, as_map}
use xconf.Value.Maps.{get-put, get-remove, get-put_self}
use xconf.Value.Clone.{clone}
use xconf.Value.Ordered.{get_path}
use xconf.Layer.{EditKind, replace, delete, unknown}
use xconf.Merge.Override.{get_path_step, get_path_absent}
use xconf.Merge.Apply.{edit_map, place}

-- From the change of a member to the change of the map around it.
Yields-place :
    (P Q : Fields × Option Value → Type 0) (k : Str) (dst : Fields)
    (r : Result (Fields × Option Value))
    → ((x : Fields × Option Value) → P x → Q (put k (obj plain x.0) dst, x.1))
    → Yields P r
    → Yields Q (r >>= place k dst)
Yields-place P Q k dst (ok x) step y = step x y
Yields-place P Q k dst (err e) step y = tt

-- The cases of the walk: the next member is absent, is no object, or is an object.
data Member (k : Str) (m : Fields) : Type 0 where
  absent : get k m ≡ none → Member k m
  value : (w : Value) → get k m ≡ some w → as_map w ≡ none → Member k m
  object : (n : Fields) → get k m ≡ some (obj plain n) → Member k m

Member-of : (k : Str) (m : Fields) (w : Value) → get k m ≡ some w → Member k m
unfolding as_map
Member-of k m (obj plain n) e = object n e
Member-of k m (obj named n) e = value (obj named n) e refl
Member-of k m w e = value w e refl

Member-cases : (k : Str) (m : Fields) → Member k m
Member-cases k m = elim (Option-cases (get k m)) [
  | inl e ↦ absent e
  | inr (w, e) ↦ Member-of k m w e
]

module _ (k j : Str) (p : FieldPath) (v : Value) (dst : Fields) where
  pub walk_absent :
      get k dst ≡ none
      → edit_map replace (k ∷ j ∷ p) v dst ≡ (edit_map replace (j ∷ p) v end >>= place k dst)
  unfolding edit_map
  walk_absent e = rw (e, edit_map)

  pub walk_object :
      (kind : EditKind) (m : Fields)
      → get k dst ≡ some (obj plain m)
      → edit_map kind (k ∷ j ∷ p) v dst ≡ (edit_map kind (j ∷ p) v m >>= place k dst)
  unfolding edit_map
  walk_object replace m e = rw (e, edit_map)
  walk_object delete m e = rw (e, edit_map)
  walk_object (unknown n) m e = rw (e, edit_map)

pub get_path-put :
    (k : Str) (p : FieldPath) (v : Value) (m : Fields)
    → get_path (k ∷ p) (obj plain (put k v m)) ≡ get_path p v
get_path-put k p v m = get_path_step k p (put k v m) v (get-put_self k v m)

-- A member that is no object ends the walk of every edit below it.
walk_value :
    (kind : EditKind) (k j : Str) (p : FieldPath) (v : Value) (dst : Fields) (w : Value)
    → get k dst ≡ some w
    → as_map w ≡ none
    → edit_map kind (k ∷ j ∷ p) v dst ≡ err edit_parent
unfolding edit_map
walk_value replace k j p v dst w e o = rw (e, edit_map, o) refl
walk_value delete k j p v dst w e o = rw (e, edit_map, o) refl
walk_value (unknown n) k j p v dst w e o = rw (e, edit_map, o) refl

-- The result wrote `c`, and the path holds it.
abbrev pub Holds : Value → FieldPath → Fields × Option Value → Type 0
Holds c p r = (r.1 ≡ some c) × (get_path p (obj plain r.0) ≡ some c)

Holds-place :
    (c : Value) (k : Str) (p : FieldPath) (dst : Fields) (r : Result (Fields × Option Value))
    → Yields (Holds c p) r
    → Yields (Holds c (k ∷ p)) (r >>= place k dst)
Holds-place c k p dst r =
    Yields-place (Holds c p) (Holds c (k ∷ p)) k dst r
      λ x h. (h.0, get_path-put k p (obj plain x.0) dst ∙ h.1)

-- After a Replace that succeeds, its path holds the copy of its value, whatever was there.
pub edit_map-replace :
    (k : Str) (p : FieldPath) (v : Value) (dst : Fields) (c : Value)
    → clone v 0 ≡ ok c
    → Yields (Holds c (k ∷ p)) (edit_map replace (k ∷ p) v dst)
edit_map-replace k [] v dst c copied =
    unfold edit_map in rw copied (refl, get_path-put k [] c dst ∙ unfold get_path in refl)
edit_map-replace k (j ∷ p) v dst c copied = elim (Member-cases k dst) [
  | absent e ↦ rw (walk_absent k j p v dst e) (
      Holds-place c k (j ∷ p) dst (edit_map replace (j ∷ p) v end)
        (edit_map-replace j p v end c copied))
  | value w e o ↦ rw (walk_value replace k j p v dst w e o) tt
  | object m e ↦ rw (walk_object k j p v dst replace m e) (
      Holds-place c k (j ∷ p) dst (edit_map replace (j ∷ p) v m)
        (edit_map-replace j p v m c copied))
]

abbrev pub IsGone : FieldPath → Fields × Option Value → Type 0
IsGone p r = get_path p (obj plain r.0) ≡ none

pub IsGone-absent :
    (k j : Str) (p : FieldPath) (v : Value) (dst : Fields)
    → get k dst ≡ none
    → edit_map delete (k ∷ j ∷ p) v dst ≡ ok (dst, none)
unfolding edit_map
IsGone-absent k j p v dst e = rw (e, edit_map) refl

-- After a Delete that succeeds, its path holds nothing.
pub edit_map-delete :
    (k : Str) (p : FieldPath) (v : Value) (dst : Fields)
    → Yields (IsGone (k ∷ p)) (edit_map delete (k ∷ p) v dst)
edit_map-delete k [] v dst =
    unfold edit_map in get_path_absent k [] (remove k dst) (rw (get-remove, str_eq_refl) refl)
edit_map-delete k (j ∷ p) v dst = elim (Member-cases k dst) [
  | absent e ↦ rw (IsGone-absent k j p v dst e) (get_path_absent k (j ∷ p) dst e)
  | value w e o ↦ rw (walk_value delete k j p v dst w e o) tt
  | object m e ↦ rw (walk_object k j p v dst delete m e) (
      Yields-place (IsGone (j ∷ p)) (IsGone (k ∷ j ∷ p)) k dst (edit_map delete (j ∷ p) v m)
        (λ x h. get_path-put k (j ∷ p) (obj plain x.0) dst ∙ h) (edit_map-delete j p v m))
]
