-- ===== src/Adapters/Kubernetes/Laws.antt =====
-- What the bindings of a Kubernetes source select.
use mathlib.Core.Path.{subst}
use xconf.Prelude.{
  ◌≡◌, ◌≢◌, ◌↔◌, ◌⊎◌, refl, sym, false, none, some, List, [], ◌∷◌, ◌++◌, All, Bool-cases,
  Option-cases, inl, inr, map,
}
use xconf.Text.{Str, str}
use xconf.Text.Dict.{Dict, lookup, insert}
use xconf.Pointer.{FieldPath, pointer}
use xconf.Error.{Result, ok, err, Yields}
use xconf.Value.{Value, plain, obj, Fields, end}
use xconf.Value.Ordered.{get_path}
use xconf.Layer.{Location}
use xconf.Merge.Edits.Apart.{IsApart}
use xconf.Adapters.Assign.{parent, assign, assign_all, overlaps, overlaps_any}
use xconf.Adapters.Assign.Laws.{IsWalk}
use xconf.Adapters.Assign.Overlap.{
  assign_all-nil, assign_all-cons, IsApart-sym, overlaps-pointer_iff, AllApart, AllHeld,
  AllFree-end, IsApartFrom, assign_all-AllApart,
}
use xconf.Adapters.Kubernetes.{bind_keys}

pub parent-IsWalk : IsWalk parent
parent-IsWalk = record { makes = refl; enters = λ n. refl }

-- The values that are there, at their paths.
abbrev pub present : Dict Value → Dict FieldPath → List (FieldPath × Value)
present values [] = []
present values ((name, p) ∷ bs) = elim (lookup name values) [
  | none ↦ present values bs
  | some v ↦ (p, v) ∷ present values bs
]

-- No path is empty, and none is another, or an ancestor of one, among the taken ones and the bindings.
abbrev pub IsBindable : List FieldPath → Dict FieldPath → Type 0
IsBindable taken [] = Unit
IsBindable taken ((name, p) ∷ bs) =
    (p ≢ []) × All (λ q. IsApart p q) taken × IsBindable (p ∷ taken) bs

overlaps_any-taken :
    (p : FieldPath) (taken : List FieldPath)
    → All (λ q. IsApart p q) taken
    → overlaps_any (pointer p) (map pointer taken) ≡ false
unfolding overlaps_any
overlaps_any-taken p [] a = refl
overlaps_any-taken p (q ∷ taken) a =
    rw ((overlaps-pointer_iff p q).1 a.0) (overlaps_any-taken p taken a.1)

overlaps_any-none :
    (p : FieldPath) (taken : List FieldPath)
    → overlaps_any (pointer p) (map pointer taken) ≡ false
    → All (λ q. IsApart p q) taken
unfolding overlaps_any
overlaps_any-none p [] h = tt
overlaps_any-none p (q ∷ taken) h = elim (Bool-cases (overlaps (pointer p) (pointer q))) [
  | inl e ↦ cc (rw e at h)
  | inr e ↦ ((overlaps-pointer_iff p q).0 e, overlaps_any-none p taken (rw e at h))
]

abbrev Among : FieldPath → List FieldPath → Type 0
Among q [] = ⊥
Among q (p ∷ ps) = (q ≡ p) ⊎ Among q ps

All-Among :
    (p q : FieldPath) (ps : List FieldPath) → All (λ t. IsApart p t) ps → Among q ps → IsApart q p
All-Among p q [] a h = absurd h
All-Among p q (t ∷ ps) a (inl e) = IsApart-sym p q (subst (IsApart p) (sym e) a.0)
All-Among p q (t ∷ ps) a (inr h) = All-Among p q ps a.1 h

present-IsApart :
    (q : FieldPath) (taken : List FieldPath) (values : Dict Value) (bs : Dict FieldPath)
    → Among q taken
    → IsBindable taken bs
    → All (λ w. IsApart q w.0) (present values bs)
present-IsApart q taken values [] h b = tt
present-IsApart q taken values ((name, p) ∷ bs) h (n, a, b) =
    let later = present-IsApart q (p ∷ taken) values bs (inr h) b in
    elim (lookup name values)
      as (λ o.
        All (λ w. IsApart q w.0)
          (elim o as (λ x. List (FieldPath × Value)) [
            | none ↦ present values bs
            | some v ↦ (p, v) ∷ present values bs
          ])) [ none ↦ later | some v ↦ (All-Among p q taken a h, later) ]

pub AllApart-present :
    (taken : List FieldPath) (values : Dict Value) (bs : Dict FieldPath)
    → IsBindable taken bs
    → AllApart (present values bs)
AllApart-present taken values [] b = tt
AllApart-present taken values ((name, p) ∷ bs) (n, a, b) =
    let later = AllApart-present (p ∷ taken) values bs b in
    elim (lookup name values)
      as (λ o. AllApart (elim o as (λ x. List (FieldPath × Value)) [
        | none ↦ present values bs
        | some v ↦ (p, v) ∷ present values bs
      ])) [
        | none ↦ later
        | some v ↦ (n, present-IsApart p (p ∷ taken) values bs (inl refl) b, later)
      ]

present-none :
    (values : Dict Value) (name : Str) (p : FieldPath) (bs : Dict FieldPath)
    → lookup name values ≡ none
    → present values ((name, p) ∷ bs) ≡ present values bs
present-none values name p bs e = rw (e, present) refl

present-some :
    (values : Dict Value) (name : Str) (p : FieldPath) (bs : Dict FieldPath) (v : Value)
    → lookup name values ≡ some v
    → present values ((name, p) ∷ bs) ≡ (p, v) ∷ present values bs
present-some values name p bs v e = rw (e, present) refl

module _ (id : Str) (values : Dict Value) where
  -- The loop is the writes of what is present.
  bind_keys-assign_all :
      (taken : List FieldPath) (bs : Dict FieldPath) (m r : Fields) (locs : Dict Location)
      → IsBindable taken bs
      → assign_all parent (present values bs) m ≡ some r
      → (out : Dict Location) × (bind_keys id values (map pointer taken) bs m locs ≡ ok (r, out))
  unfolding bind_keys
  bind_keys-assign_all taken [] m r locs b h = (locs, cc (assign_all-nil parent m r h))
  bind_keys-assign_all taken ((name, []) ∷ bs) m r locs (n, a, b) h = absurd (n refl)
  bind_keys-assign_all taken ((name, k ∷ p) ∷ bs) m r locs (n, a, b) h =
      elim (Option-cases (lookup name values)) [
        | inl e ↦
            let (out, d) = bind_keys-assign_all ((k ∷ p) ∷ taken) bs m r locs b (
              subst (λ ws. assign_all parent ws m ≡ some r) (present-none values name (k ∷ p) bs e)
                h) in
            (out, rw (overlaps_any-taken (k ∷ p) taken a, e, bind_keys) d)
        | inr (v, e) ↦
            let (s, f, g) = assign_all-cons parent (k ∷ p) v (present values bs) m r (
              subst (λ ws. assign_all parent ws m ≡ some r)
                (present-some values name (k ∷ p) bs v e) h) in
            let (out, d) =
              bind_keys-assign_all ((k ∷ p) ∷ taken) bs s r
                (insert (pointer (k ∷ p))
                  (record { name = id ++ str "/" ++ name; line = 0; column = 0 }) locs)
                b g in
            (out, rw (overlaps_any-taken (k ∷ p) taken a, e, f, bind_keys) d)
      ]

  -- Only such bindings are taken.
  bind_keys-IsBindable :
      (taken : List FieldPath) (bs : Dict FieldPath) (m : Fields) (locs : Dict Location)
      → Yields (λ out. IsBindable taken bs) (bind_keys id values (map pointer taken) bs m locs)
  unfolding bind_keys
  bind_keys-IsBindable taken [] m locs = tt
  bind_keys-IsBindable taken ((name, []) ∷ bs) m locs = tt
  bind_keys-IsBindable taken ((name, k ∷ p) ∷ bs) m locs =
      elim (Bool-cases (overlaps_any (pointer (k ∷ p)) (map pointer taken))) [
        | inl e ↦ rw (e, bind_keys) tt
        | inr e ↦
            let a = overlaps_any-none (k ∷ p) taken e in
            elim (Option-cases (lookup name values)) [
              | inl n ↦
                  rw (e, n, bind_keys)
                    (taken_too a (bind_keys id values (map pointer ((k ∷ p) ∷ taken)) bs m locs)
                      (bind_keys-IsBindable ((k ∷ p) ∷ taken) bs m locs))
              | inr (v, n) ↦ elim (Option-cases (assign parent (k ∷ p) v m)) [
                | inl d ↦ rw (e, n, d, bind_keys) tt
                | inr (r, d) ↦
                    rw (e, n, d, bind_keys)
                      (taken_too a
                        (bind_keys id values (map pointer ((k ∷ p) ∷ taken)) bs r (
                          insert (pointer (k ∷ p))
                            (record { name = id ++ str "/" ++ name; line = 0; column = 0 }) locs))
                        (bind_keys-IsBindable ((k ∷ p) ∷ taken) bs r (
                          insert (pointer (k ∷ p))
                            (record { name = id ++ str "/" ++ name; line = 0; column = 0 }) locs)))
              ]
            ]
      ]
    where
      taken_too :
          All (λ q. IsApart (k ∷ p) q) taken
          → (got : Result (Fields × Dict Location))
          → Yields (λ out. IsBindable ((k ∷ p) ∷ taken) bs) got
          → Yields (λ out. IsBindable taken ((name, k ∷ p) ∷ bs)) got
      taken_too a (ok out) b = ((λ z. cc), a, b)
      taken_too a (err z) b = tt

  -- The bindings are taken exactly where no path is empty and none is another or an ancestor of one,
  -- whatever values there are.
  pub bind_keys_iff :
      (bs : Dict FieldPath)
      → ((r : Fields) × (out : Dict Location) × (bind_keys id values [] bs end [] ≡ ok (r, out)))
        ↔ IsBindable [] bs
  bind_keys_iff bs = (
    λ (r, out, e). subst (Yields (λ w. IsBindable [] bs)) e (bind_keys-IsBindable [] bs end []),
    λ b.
        let a = AllApart-present [] values bs b in
        let (r, e, held, rest) =
          assign_all-AllApart parent parent-IsWalk (present values bs) end a
            (AllFree-end (present values bs) a) in
        let (out, d) = bind_keys-assign_all [] bs end r [] b e in (r, out, d),
  )

  -- Where no path of the bindings is empty and none is another or an ancestor of one, the loop over them
  -- succeeds and no type assertion fails, in whatever order the bindings come: each value that is there
  -- stands at its path, and at a path apart from all of these there is what an empty map holds.
  pub bind_keys-end :
      (bs : Dict FieldPath)
      → IsBindable [] bs
      → (r : Fields) × (out : Dict Location) × (bind_keys id values [] bs end [] ≡ ok (r, out))
        × AllHeld r (present values bs)
        × ((q : FieldPath)
            → IsApartFrom q (present values bs)
            → get_path q (obj plain r) ≡ get_path q (obj plain end))
  bind_keys-end bs b =
      let a = AllApart-present [] values bs b in
      let (r, e, held, rest) =
        assign_all-AllApart parent parent-IsWalk (present values bs) end a
          (AllFree-end (present values bs) a) in
      let (out, d) = bind_keys-assign_all [] bs end r [] b e in (r, out, d, held, rest)
