-- ===== src/Adapters/Assign/Overlap.antt =====
-- Paths whose pointers overlap, and several writes at paths that do not.
use mathlib.Core.Path.{subst}
use xconf.Prelude.{
  ◌≡◌, refl, sym, ◌∙◌, inl, inr, ◌≢◌, ◌↔◌, true, false, Option, some, List, [], ◌∷◌, ◌++◌, arith,
  All, map, append-nil, Bool-cases, Option-cases,
}
use xconf.Text.{Str, str_eq, has_prefix}
use xconf.Text.Laws.{str_eq_iff, str_eq_refl}
use xconf.Pointer.{FieldPath, pointer, slash}
use xconf.Pointer.Laws.{pointer_inj, IsBelow, has_prefix-pointer_iff}
use xconf.Value.{Value, plain, obj, Fields, end}
use xconf.Value.Ordered.{get_path}
use xconf.Merge.Edits.Apart.{IsApart}
use xconf.Adapters.Assign.{assign, assign_all, overlaps, overlaps_any}
use xconf.Adapters.Assign.Laws.{IsFree, IsFree-end, IsWalk, assign-IsFree}

-- One path begins with the other, or they part.
data Meets (p q : FieldPath) : Type 0 where
  above : (r : FieldPath) → q ≡ p ++ r → Meets p q
  under : (r : FieldPath) → p ≡ q ++ r → Meets p q
  apart : IsApart p q → Meets p q

Meets-cons : (k j : Str) (p q : FieldPath) → k ≡ j → Meets p q → Meets (k ∷ p) (j ∷ q)
Meets-cons k j p q e (above r f) = above r (cc)
Meets-cons k j p q e (under r f) = under r (cc)
Meets-cons k j p q e (apart a) = apart (inr (e, a))

meets : (p q : FieldPath) → Meets p q
meets [] q = above q refl
meets (k ∷ p) [] = under (k ∷ p) refl
meets (k ∷ p) (j ∷ q) = elim (Bool-cases (str_eq k j)) [
  | inl hit ↦ Meets-cons k j p q ((str_eq_iff k j).0 hit) (meets p q)
  | inr other ↦ apart (inl (λ e. ground (arith, str_eq_iff k j)))
]

below_true :
    (p : FieldPath) (k : Str) (r : FieldPath)
    → has_prefix (pointer (p ++ k ∷ r)) (pointer p ++ slash ∷ []) ≡ true
below_true p k r = (has_prefix-pointer_iff p (p ++ k ∷ r)).1 (k, r, refl)

overlaps_above : (p r : FieldPath) → overlaps (pointer p) (pointer (p ++ r)) ≡ true
unfolding overlaps
overlaps_above p [] = rw append-nil (rw (str_eq_refl (pointer p)) refl)
overlaps_above p (k ∷ r) = ground (arith, below_true p k r)

overlaps_under : (p r : FieldPath) → overlaps (pointer (p ++ r)) (pointer p) ≡ true
unfolding overlaps
overlaps_under p [] = rw append-nil (rw (str_eq_refl (pointer p)) refl)
overlaps_under p (k ∷ r) = ground (arith, below_true p k r)

not-IsApart_append : (p r : FieldPath) → ¬ IsApart p (p ++ r)
not-IsApart_append [] r a = a
not-IsApart_append (k ∷ p) r (inl n) = n refl
not-IsApart_append (k ∷ p) r (inr (e, a)) = not-IsApart_append p r a

pub IsApart-sym : (p q : FieldPath) → IsApart p q → IsApart q p
IsApart-sym [] q a = absurd a
IsApart-sym (k ∷ p) [] a = absurd a
IsApart-sym (k ∷ p) (j ∷ q) (inl n) = inl (λ e. n (sym e))
IsApart-sym (k ∷ p) (j ∷ q) (inr (e, a)) = inr (sym e, IsApart-sym p q a)

not-IsApart_below : (p q : FieldPath) → IsBelow p q → ¬ IsApart p q
not-IsApart_below p q (k, r, e) a = not-IsApart_append p (k ∷ r) (subst (IsApart p) e a)

not-IsApart_same : (p q : FieldPath) → q ≡ p → ¬ IsApart p q
not-IsApart_same p q e a = not-IsApart_append p [] (subst (IsApart p) (e ∙ sym (append-nil p)) a)

-- Where one of the three tests holds, the paths do not part.
not_apart : (p q : FieldPath) → IsApart p q → overlaps (pointer p) (pointer q) ≡ false
unfolding overlaps
not_apart p q a = rw (eq, down, up) refl
  where
    eq : str_eq (pointer q) (pointer p) ≡ false
    eq = elim (Bool-cases (str_eq (pointer q) (pointer p))) [
      | inl h ↦
          absurd
            (not-IsApart_same p q (pointer_inj q p ((str_eq_iff (pointer q) (pointer p)).0 h)) a)
      | inr h ↦ h
    ]

    down : has_prefix (pointer q) (pointer p ++ slash ∷ []) ≡ false
    down = elim (Bool-cases (has_prefix (pointer q) (pointer p ++ slash ∷ []))) [
      | inl h ↦ absurd (not-IsApart_below p q ((has_prefix-pointer_iff p q).0 h) a)
      | inr h ↦ h
    ]

    up : has_prefix (pointer p) (pointer q ++ slash ∷ []) ≡ false
    up = elim (Bool-cases (has_prefix (pointer p) (pointer q ++ slash ∷ []))) [
      | inl h ↦
          absurd (not-IsApart_below q p ((has_prefix-pointer_iff q p).0 h) (IsApart-sym p q a))
      | inr h ↦ h
    ]

-- The test finds exactly the pairs of which one path is the other or an ancestor of it.
pub overlaps-pointer_iff :
    (p q : FieldPath) → (overlaps (pointer p) (pointer q) ≡ false) ↔ IsApart p q
overlaps-pointer_iff p q = (parts (meets p q), not_apart p q)
  where
    parts : Meets p q → overlaps (pointer p) (pointer q) ≡ false → IsApart p q
    parts (above r e) h = cc (overlaps_above p r, h, e)
    parts (under r e) h = cc (overlaps_under q r, h, e)
    parts (apart a) h = a

-- A path parts from all of the paths of some writes.
abbrev pub IsApartFrom : FieldPath → List (FieldPath × Value) → Type 0
IsApartFrom q ws = All (λ w. IsApart w.0 q) ws

-- No two of the paths overlap, and none is empty.
abbrev pub AllApart : List (FieldPath × Value) → Type 0
AllApart [] = Unit
AllApart ((p, v) ∷ ws) = (p ≢ []) × All (λ w. IsApart p w.0) ws × AllApart ws

abbrev pub AllHeld : Fields → List (FieldPath × Value) → Type 0
AllHeld r ws = All (λ w. get_path w.0 (obj plain r) ≡ some w.1) ws

abbrev pub AllFree : List (FieldPath × Value) → Fields → Type 0
AllFree ws m = All (λ w. IsFree w.0 m) ws

AllFree-keep :
    (p : FieldPath) (ws : List (FieldPath × Value)) (m r : Fields)
    → ((q : FieldPath) → IsApart p q → IsFree q m → IsFree q r)
    → All (λ w. IsApart p w.0) ws
    → AllFree ws m
    → AllFree ws r
AllFree-keep p [] m r keep a f = tt
AllFree-keep p ((q, v) ∷ ws) m r keep a f = (keep q a.0 f.0, AllFree-keep p ws m r keep a.1 f.1)

IsApartFrom-sym :
    (p : FieldPath) (ws : List (FieldPath × Value)) → All (λ w. IsApart p w.0) ws → IsApartFrom p ws
IsApartFrom-sym p [] a = tt
IsApartFrom-sym p ((q, v) ∷ ws) a = (IsApart-sym p q a.0, IsApartFrom-sym p ws a.1)

-- Where nothing stands at the paths.
pub AllFree-end : (ws : List (FieldPath × Value)) → AllApart ws → AllFree ws end
AllFree-end [] a = tt
AllFree-end (([], v) ∷ ws) a = absurd (a.0 refl)
AllFree-end ((k ∷ p, v) ∷ ws) a = (IsFree-end k p, AllFree-end ws a.2)

module _ (into : Option Value → Option Fields) (walks : IsWalk into) where
  -- Writes at paths that do not overlap all succeed, whatever their order, and no type assertion fails;
  -- each path holds its value, and any other path apart from them all is as it was.
  pub assign_all-AllApart :
      (ws : List (FieldPath × Value)) (m : Fields)
      → AllApart ws
      → AllFree ws m
      → (r : Fields) × (assign_all into ws m ≡ some r)
        × AllHeld r ws
        × ((q : FieldPath) → IsApartFrom q ws → get_path q (obj plain r) ≡ get_path q (obj plain m))
  unfolding assign_all
  assign_all-AllApart [] m a f = (m, refl, tt, λ q h. refl)
  assign_all-AllApart ((p, v) ∷ ws) m a f =
      let (n, e, w) = assign-IsFree into walks p v m f.0 in
      let (r, d, held, rest) =
        assign_all-AllApart ws n a.2 (AllFree-keep p ws m n (λ q b. (w.1 q b).1) a.1 f.1) in
      (
        r,
        rw (e, assign_all) d,
        (rest p (IsApartFrom-sym p ws a.1) ∙ w.0, held),
        λ q h. rest q h.1 ∙ (w.1 q h.0).0,
      )

module _ (into : Option Value → Option Fields) where
  pub assign_all-cons :
      (p : FieldPath) (v : Value) (ws : List (FieldPath × Value)) (m r : Fields)
      → assign_all into ((p, v) ∷ ws) m ≡ some r
      → (s : Fields) × (assign into p v m ≡ some s) × (assign_all into ws s ≡ some r)
  unfolding assign_all
  assign_all-cons p v ws m r h = elim (Option-cases (assign into p v m)) [
    | inl d ↦ cc (rw (d, assign_all) at h)
    | inr (s, d) ↦ (s, d, rw (d, assign_all) at h)
  ]

  pub assign_all-nil : (m r : Fields) → assign_all into [] m ≡ some r → m ≡ r
  unfolding assign_all
  assign_all-nil m r h = cc

-- The test against the pointers of some writes.
pub overlaps_any-paths :
    (p : FieldPath) (ws : List (FieldPath × Value))
    → overlaps_any (pointer p) (map (λ w. pointer w.0) ws) ≡ false
    → All (λ w. IsApart p w.0) ws
unfolding overlaps_any
overlaps_any-paths p [] h = tt
overlaps_any-paths p ((q, v) ∷ ws) h = elim (Bool-cases (overlaps (pointer p) (pointer q))) [
  | inl e ↦ cc (rw e at h)
  | inr e ↦ ((overlaps-pointer_iff p q).0 e, overlaps_any-paths p ws (rw e at h))
]
