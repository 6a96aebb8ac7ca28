-- ===== src/Merge/Edits/Apart.antt =====
-- The paths apart from that of an edit.
use mathlib.Core.Path.{subst}
use xconf.Prelude.{
  ◌≡◌, refl, sym, ◌∙◌, ◌⊎◌, inl, inr, ◌≢◌, false, Option, none, some, [], ◌∷◌, arith, Option-cases,
}
use xconf.Text.{Str, str_eq}
use xconf.Text.Laws.{str_eq_iff}
use xconf.Pointer.{FieldPath}
use xconf.Error.{Result, ok, err, ◌>>=◌, Yields}
use xconf.Value.{Value, plain, obj, Fields, end, get, put, remove}
use xconf.Value.Maps.{get-put, get-remove}
use xconf.Value.Clone.{clone}
use xconf.Value.Ordered.{get_path}
use xconf.Layer.{EditKind, replace, delete, unknown}
use xconf.Merge.Override.{get_path_step, get_path_absent}
use xconf.Merge.Apply.{edit_map, place}
use xconf.Merge.Edits.{
  Member-cases, absent, value, object, walk_absent, walk_object, walk_value, get_path-put,
  IsGone-absent,
}

-- The paths part at some segment: neither is the other, nor below it.
abbrev pub IsApart : FieldPath → FieldPath → Type 0
IsApart [] q = ⊥
IsApart (k ∷ p) [] = ⊥
IsApart (k ∷ p) (j ∷ q) = (k ≢ j) ⊎ ((k ≡ j) × IsApart p q)

abbrev pub Keeps : FieldPath → Fields → Fields × Option Value → Type 0
Keeps q m r = get_path q (obj plain r.0) ≡ get_path q (obj plain m)

-- Only the member of its first key matters to a path.
get_path_same :
    (i : Str) (q : FieldPath) (a b : Fields)
    → get i a ≡ get i b
    → get_path (i ∷ q) (obj plain a) ≡ get_path (i ∷ q) (obj plain b)
get_path_same i q a b e = elim (Option-cases (get i b)) [
  | inl none_there ↦ get_path_absent i q a (e ∙ none_there) ∙ sym (get_path_absent i q b none_there)
  | inr (w, there) ↦ get_path_step i q a w (e ∙ there) ∙ sym (get_path_step i q b w there)
]

pub miss : (k i : Str) → k ≢ i → str_eq k i ≡ false
miss k i n = ground (arith, str_eq_iff k i)

pub put_other :
    (k i : Str) (q : FieldPath) (v : Value) (m : Fields)
    → k ≢ i
    → get_path (i ∷ q) (obj plain (put k v m)) ≡ get_path (i ∷ q) (obj plain m)
put_other k i q v m n = get_path_same i q (put k v m) m (rw (get-put, miss k i n) refl)

remove_other :
    (k i : Str) (q : FieldPath) (m : Fields)
    → k ≢ i
    → get_path (i ∷ q) (obj plain (remove k m)) ≡ get_path (i ∷ q) (obj plain m)
remove_other k i q m n = get_path_same i q (remove k m) m (rw (get-remove, miss k i n) refl)

-- At the end of the path.
end_apart :
    (kind : EditKind) (k i : Str) (q : FieldPath) (v : Value) (dst : Fields)
    → k ≢ i
    → Yields (Keeps (i ∷ q) dst) (edit_map kind (k ∷ []) v dst)
unfolding edit_map
end_apart delete k i q v dst n = remove_other k i q dst n
end_apart replace k i q v dst n =
    elim (clone v 0) as (λ r. Yields (Keeps (i ∷ q) dst) (r >>= λ c. ok (put k c dst, some c))) [
      | ok c ↦ put_other k i q c dst n
      | err e ↦ tt
    ]
end_apart (unknown x) k i q v dst n =
    elim (clone v 0) as (λ r. Yields (Keeps (i ∷ q) dst) (r >>= λ c. ok (put k c dst, some c))) [
      | ok c ↦ put_other k i q c dst n
      | err e ↦ tt
    ]

-- Around a changed member: another member stays, and within the member its own paths do.
place_apart :
    (k j i : Str) (p q : FieldPath) (dst m : Fields) (r : Result (Fields × Option Value))
    → IsApart (k ∷ j ∷ p) (i ∷ q)
    → (k ≡ i → IsApart (j ∷ p) q → get_path q (obj plain m) ≡ get_path (i ∷ q) (obj plain dst))
    → (IsApart (j ∷ p) q → Yields (Keeps q m) r)
    → Yields (Keeps (i ∷ q) dst) (r >>= place k dst)
place_apart k j i p q dst m (err e) a same inner = tt
place_apart k j i p q dst m (ok x) (inl n) same inner = put_other k i q (obj plain x.0) dst n
place_apart k j i p q dst m (ok x) (inr (e, a)) same inner =
    subst
      (λ (h : Str).
        get_path (h ∷ q) (obj plain (put k (obj plain x.0) dst)) ≡ get_path (i ∷ q) (obj plain dst))
      e (get_path-put k q (obj plain x.0) dst ∙ inner a ∙ same e a)

pub none_below :
    (j i : Str) (p q : FieldPath) (dst : Fields)
    → get i dst ≡ none
    → IsApart (j ∷ p) q
    → get_path q (obj plain end) ≡ get_path (i ∷ q) (obj plain dst)
unfolding get
none_below j i p [] dst e a = absurd a
none_below j i p (h ∷ q) dst e a =
    get_path_absent h q end refl ∙ sym (get_path_absent i (h ∷ q) dst e)

module _ (v : Value) where
  replace_apart :
      (k : Str) (p q : FieldPath) (dst : Fields)
      → IsApart (k ∷ p) q
      → Yields (Keeps q dst) (edit_map replace (k ∷ p) v dst)
  replace_apart k p [] dst a = absurd a
  replace_apart k [] (i ∷ q) dst (inl n) = end_apart replace k i q v dst n
  replace_apart k [] (i ∷ q) dst (inr a) = absurd a.1
  replace_apart k (j ∷ p) (i ∷ q) dst a = elim (Member-cases k dst) [
    | absent e ↦ rw (walk_absent k j p v dst e) (
        place_apart k j i p q dst end (edit_map replace (j ∷ p) v end) a
          (λ same b. none_below j i p q dst (subst (λ (x : Str). get x dst ≡ none) same e) b)
          (replace_apart j p q end))
    | value w e o ↦ rw (walk_value replace k j p v dst w e o) tt
    | object m e ↦ rw (walk_object k j p v dst replace m e) (
        place_apart k j i p q dst m (edit_map replace (j ∷ p) v m) a
          (λ same b. sym (
            get_path_step i q dst (obj plain m)
              (subst (λ (x : Str). get x dst ≡ some (obj plain m)) same e)))
          (replace_apart j p q m))
  ]

  delete_apart :
      (k : Str) (p q : FieldPath) (dst : Fields)
      → IsApart (k ∷ p) q
      → Yields (Keeps q dst) (edit_map delete (k ∷ p) v dst)
  delete_apart k p [] dst a = absurd a
  delete_apart k [] (i ∷ q) dst (inl n) = end_apart delete k i q v dst n
  delete_apart k [] (i ∷ q) dst (inr a) = absurd a.1
  delete_apart k (j ∷ p) (i ∷ q) dst a = elim (Member-cases k dst) [
    | absent e ↦ rw (IsGone-absent k j p v dst e) refl
    | value w e o ↦ rw (walk_value delete k j p v dst w e o) tt
    | object m e ↦ rw (walk_object k j p v dst delete m e) (
        place_apart k j i p q dst m (edit_map delete (j ∷ p) v m) a
          (λ same b. sym (
            get_path_step i q dst (obj plain m)
              (subst (λ (x : Str). get x dst ≡ some (obj plain m)) same e)))
          (delete_apart j p q m))
  ]

  -- An edit of either kind that succeeds leaves every path apart from its own as it was, whether
  -- that path holds a value or nothing.
  pub edit_map-apart :
      (k : Str) (p q : FieldPath) (dst : Fields)
      → IsApart (k ∷ p) q
      → Yields (Keeps q dst) (edit_map replace (k ∷ p) v dst)
        × Yields (Keeps q dst) (edit_map delete (k ∷ p) v dst)
  edit_map-apart k p q dst a = (replace_apart k p q dst a, delete_apart k p q dst a)
