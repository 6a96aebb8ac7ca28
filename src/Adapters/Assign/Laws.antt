-- ===== src/Adapters/Assign/Laws.antt =====
-- Writing at paths that do not overlap.
use mathlib.Core.Path.{subst}
use xconf.Prelude.{◌≡◌, refl, sym, ◌∙◌, ◌⊎◌, inl, inr, ◌≢◌, Option, none, some, [], ◌∷◌}
use xconf.Text.{Str}
use xconf.Pointer.{FieldPath}
use xconf.Value.{Value, plain, obj, Fields, end, get, put}
use xconf.Value.Maps.{get-put, get-put_self}
use xconf.Value.Ordered.{get_path}
use xconf.Merge.Override.{get_path_step}
use xconf.Merge.Edits.{get_path-put}
use xconf.Merge.Edits.Apart.{IsApart, put_other, none_below, miss}
use xconf.Adapters.Assign.{assign}

-- Nothing stands at the path, and every ancestor is an object or missing.
abbrev pub IsFree : FieldPath → Fields → Type 0
IsFree [] m = ⊥
IsFree (k ∷ p) m = (get k m ≡ none) ⊎ ((n : Fields) × (get k m ≡ some (obj plain n)) × IsFree p n)

pub IsFree-end : (k : Str) (p : FieldPath) → IsFree (k ∷ p) end
unfolding get
IsFree-end k p = inl refl

-- The map in which the walk goes on below a member.
abbrev Under : Str → Fields → Fields → Type 0
Under k m n = ((get k m ≡ none) × (n ≡ end)) ⊎ (get k m ≡ some (obj plain n))

-- What a write leaves: the value at the path, and every path apart from it as it was.
abbrev pub Writes : FieldPath → Value → Fields → Fields → Type 0
Writes p v m r =
    (get_path p (obj plain r) ≡ some v)
    × ((q : FieldPath)
        → IsApart p q
        → (get_path q (obj plain r) ≡ get_path q (obj plain m)) × (IsFree q m → IsFree q r))

IsFree-put_other :
    (k i : Str) (q : FieldPath) (v : Value) (m : Fields)
    → k ≢ i
    → IsFree (i ∷ q) m
    → IsFree (i ∷ q) (put k v m)
IsFree-put_other k i q v m n (inl e) = inl (rw (get-put, miss k i n) e)
IsFree-put_other k i q v m n (inr (w, e, f)) = inr (w, rw (get-put, miss k i n) e, f)

end_Writes : (k : Str) (v : Value) (m : Fields) → Writes (k ∷ []) v m (put k v m)
unfolding get_path
end_Writes k v m = (get_path-put k [] v m, others)
  where
    others :
        (q : FieldPath)
        → IsApart (k ∷ []) q
        → (get_path q (obj plain (put k v m)) ≡ get_path q (obj plain m))
          × (IsFree q m → IsFree q (put k v m))
    others [] a = absurd a
    others (i ∷ q) (inl n) = (put_other k i q v m n, IsFree-put_other k i q v m n)
    others (i ∷ q) (inr a) = absurd a.1

same_object :
    (k : Str) (m a b : Fields) → get k m ≡ some (obj plain a) → get k m ≡ some (obj plain b) → a ≡ b
same_object k m a b d e = cc

IsFree-Under :
    (k j : Str) (p : FieldPath) (m n : Fields)
    → Under k m n
    → IsFree (k ∷ j ∷ p) m
    → IsFree (j ∷ p) n
IsFree-Under k j p m n (inl (e, d)) f = subst (IsFree (j ∷ p)) (sym d) (IsFree-end j p)
IsFree-Under k j p m n (inr e) (inl f) = cc
IsFree-Under k j p m n (inr e) (inr (w, d, f)) = subst (IsFree (j ∷ p)) (same_object k m w n d e) f

-- What another path finds in the walked map is what it finds in the map below the member.
below_Under :
    (k j : Str) (p q : FieldPath) (m n : Fields)
    → Under k m n
    → IsApart (j ∷ p) q
    → get_path q (obj plain n) ≡ get_path (k ∷ q) (obj plain m)
below_Under k j p q m n (inl (e, d)) a =
    subst (λ (x : Fields). get_path q (obj plain x) ≡ get_path (k ∷ q) (obj plain m)) (sym d)
      (none_below j k p q m e a)
below_Under k j p q m n (inr e) a = sym (get_path_step k q m (obj plain n) e)

IsFree-step :
    (k j : Str) (p q : FieldPath) (m n r : Fields)
    → Under k m n
    → IsApart (j ∷ p) q
    → (IsFree q n → IsFree q r)
    → IsFree (k ∷ q) m
    → IsFree (k ∷ q) (put k (obj plain r) m)
IsFree-step k j p [] m n r u a keep f = absurd a
IsFree-step k j p (i ∷ q) m n r u a keep f =
    inr (r, get-put_self k (obj plain r) m, keep (IsFree-Under k i q m n u f))

step_Writes :
    (k j : Str) (p : FieldPath) (v : Value) (m n r : Fields)
    → Under k m n
    → Writes (j ∷ p) v n r
    → Writes (k ∷ j ∷ p) v m (put k (obj plain r) m)
step_Writes k j p v m n r u (there, rest) = (get_path-put k (j ∷ p) (obj plain r) m ∙ there, others)
  where
    others :
        (q : FieldPath)
        → IsApart (k ∷ j ∷ p) q
        → (get_path q (obj plain (put k (obj plain r) m)) ≡ get_path q (obj plain m))
          × (IsFree q m → IsFree q (put k (obj plain r) m))
    others [] a = absurd a
    others (i ∷ q) (inl n) =
        (put_other k i q (obj plain r) m n, IsFree-put_other k i q (obj plain r) m n)
    others (i ∷ q) (inr (same, a)) =
        subst
          (λ (h : Str).
            (get_path (h ∷ q) (obj plain (put k (obj plain r) m)) ≡ get_path (h ∷ q) (obj plain m))
            × (IsFree (h ∷ q) m → IsFree (h ∷ q) (put k (obj plain r) m)))
          same
          (
            get_path-put k q (obj plain r) m ∙ (rest q a).0 ∙ below_Under k j p q m n u a,
            IsFree-step k j p q m n r u a (rest q a).1,
          )

-- Both forms of the walk make a missing parent, and go on in an object.
pub record IsWalk (into : Option Value → Option Fields) : Type 0 where
  pub makes : into none ≡ some end
  pub enters : (n : Fields) → into (some (obj plain n)) ≡ some n

module _ (into : Option Value → Option Fields) (walks : IsWalk into) where
  assign_step :
      (k j : Str) (p : FieldPath) (v : Value) (m n r : Fields)
      → Under k m n
      → assign into (j ∷ p) v n ≡ some r
      → assign into (k ∷ j ∷ p) v m ≡ some (put k (obj plain r) m)
  unfolding assign
  assign_step k j p v m n r (inl (e, d)) f =
      rw (e, walks.makes, assign)
        (rw (subst (λ (x : Fields). assign into (j ∷ p) v x ≡ some r) d f) refl)
  assign_step k j p v m n r (inr e) f = rw (e, walks.enters n, f, assign) refl

  -- A write at a free path succeeds; it leaves the value at the path, and every path apart from it as it
  -- was, free ones free.
  pub assign-IsFree :
      (p : FieldPath) (v : Value) (m : Fields)
      → IsFree p m
      → (r : Fields) × (assign into p v m ≡ some r) × Writes p v m r
  unfolding assign
  assign-IsFree [] v m f = absurd f
  assign-IsFree (k ∷ []) v m f = (put k v m, refl, end_Writes k v m)
  assign-IsFree (k ∷ j ∷ p) v m (inl e) =
      let (r, g, w) = assign-IsFree (j ∷ p) v end (IsFree-end j p) in
      (
        put k (obj plain r) m,
        assign_step k j p v m end r (inl (e, refl)) g,
        step_Writes k j p v m end r (inl (e, refl)) w,
      )
  assign-IsFree (k ∷ j ∷ p) v m (inr (n, e, f)) =
      let (r, g, w) = assign-IsFree (j ∷ p) v n f in
      (
        put k (obj plain r) m,
        assign_step k j p v m n r (inr e) g,
        step_Writes k j p v m n r (inr e) w,
      )
