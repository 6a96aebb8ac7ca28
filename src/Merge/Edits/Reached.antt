-- ===== src/Merge/Edits/Reached.antt =====
-- When an edit succeeds.
use xconf.Prelude.{◌≡◌, refl, ap, ◌∙◌, ◌⊎◌, inl, inr, Option, none, some, [], ◌∷◌}
use xconf.Text.{Str}
use xconf.Pointer.{FieldPath}
use xconf.Error.{Result, ok, ◌>>=◌}
use xconf.Value.{Value, plain, obj, Fields, end, get, put}
use xconf.Value.Clone.{clone}
use xconf.Layer.{replace, delete}
use xconf.Merge.Apply.{edit_map, place}
use xconf.Merge.Edits.{
  walk_absent, walk_object, IsGone-absent, Holds, IsGone, edit_map-replace, edit_map-delete,
}

-- Along the path every ancestor is an object, as far as there is one.
abbrev pub IsOpen : FieldPath → Fields → Type 0
IsOpen [] m = Unit
IsOpen (k ∷ []) m = Unit
IsOpen (k ∷ j ∷ p) m =
    (get k m ≡ none) ⊎ ((n : Fields) × (get k m ≡ some (obj plain n)) × IsOpen (j ∷ p) n)

abbrev Succeeds : Result (Fields × Option Value) → Type 0
Succeeds r = (x : Fields × Option Value) × (r ≡ ok x)

Succeeds-place :
    (k : Str) (dst : Fields) (r : Result (Fields × Option Value))
    → Succeeds r
    → Succeeds (r >>= place k dst)
Succeeds-place k dst r (x, e) = ((put k (obj plain x.0) dst, x.1), ap (λ q. q >>= place k dst) e)

Succeeds-sym : (r q : Result (Fields × Option Value)) → r ≡ q → Succeeds q → Succeeds r
Succeeds-sym r q e (x, f) = (x, e ∙ f)

IsOpen-end : (k : Str) (p : FieldPath) → IsOpen (k ∷ p) end
unfolding get
IsOpen-end k [] = tt
IsOpen-end k (j ∷ p) = inl refl

replace-Succeeds :
    (k : Str) (p : FieldPath) (v c : Value) (dst : Fields)
    → clone v 0 ≡ ok c
    → IsOpen (k ∷ p) dst
    → Succeeds (edit_map replace (k ∷ p) v dst)
unfolding edit_map
replace-Succeeds k [] v c dst e o = ((put k c dst, some c), rw (e, edit_map) refl)
replace-Succeeds k (j ∷ p) v c dst e (inl absent) =
    Succeeds-sym (edit_map replace (k ∷ j ∷ p) v dst)
      (edit_map replace (j ∷ p) v end >>= place k dst) (walk_absent k j p v dst absent)
      (Succeeds-place k dst (edit_map replace (j ∷ p) v end)
        (replace-Succeeds j p v c end e (IsOpen-end j p)))
replace-Succeeds k (j ∷ p) v c dst e (inr (n, there, o)) =
    Succeeds-sym (edit_map replace (k ∷ j ∷ p) v dst) (edit_map replace (j ∷ p) v n >>= place k dst)
      (walk_object k j p v dst replace n there)
      (Succeeds-place k dst (edit_map replace (j ∷ p) v n) (replace-Succeeds j p v c n e o))

delete-Succeeds :
    (k : Str) (p : FieldPath) (v : Value) (dst : Fields)
    → IsOpen (k ∷ p) dst
    → Succeeds (edit_map delete (k ∷ p) v dst)
unfolding edit_map
delete-Succeeds k [] v dst o = (_, refl)
delete-Succeeds k (j ∷ p) v dst (inl absent) = ((dst, none), IsGone-absent k j p v dst absent)
delete-Succeeds k (j ∷ p) v dst (inr (n, there, o)) =
    Succeeds-sym (edit_map delete (k ∷ j ∷ p) v dst) (edit_map delete (j ∷ p) v n >>= place k dst)
      (walk_object k j p v dst delete n there)
      (Succeeds-place k dst (edit_map delete (j ∷ p) v n) (delete-Succeeds j p v n o))

-- Where every ancestor of a path is an object or missing, an edit at that path succeeds: a Replace
-- with a value that can be cloned leaves the clone at the path, and a Delete leaves nothing there.
pub edit_map-IsOpen :
    (k : Str) (p : FieldPath) (v c : Value) (dst : Fields)
    → clone v 0 ≡ ok c
    → IsOpen (k ∷ p) dst
    → ((r : Fields × Option Value) × (edit_map replace (k ∷ p) v dst ≡ ok r) × Holds c (k ∷ p) r)
      × ((r : Fields × Option Value) × (edit_map delete (k ∷ p) v dst ≡ ok r) × IsGone (k ∷ p) r)
edit_map-IsOpen k p v c dst e o =
    let (r, f) = replace-Succeeds k p v c dst e o in
    let (q, h) = delete-Succeeds k p v dst o in
    ((r, f, rw f at (edit_map-replace k p v dst c e)), (q, h, rw h at (edit_map-delete k p v dst)))
