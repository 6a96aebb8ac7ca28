-- ===== src/Adapters/Directory/Tree.antt =====
-- What the directory source reads of a directory in which nothing fails.
use mathlib.Core.Path.{subst}
use xconf.Prelude.{
  ℕ, ◌+◌, ◌-◌, ◌^◌, ◌≤◌, ◌<◌, ◌≡◌, ◌≢◌, ◌⊎◌, refl, sym, ap, ◌∙◌, inl, inr, true, Option, none, some,
  [], ◌∷◌, length, ltb, leb, arith, Bool-cases, Option-cases, if◌then◌else◌,
}
use xconf.Text.{Str}
use xconf.Text.Dict.{Dict}
use xconf.Pointer.{FieldPath}
use xconf.Error.{Error, ok, err, ◌>>=◌, Result-cases, too_large}
use xconf.Value.{Value, text, plain, obj, Fields, end}
use xconf.Value.Ordered.{get_path}
use xconf.Adapters.Assign.{parent, assign, assign_all}
use xconf.Adapters.Kubernetes.Laws.{parent-IsWalk}
use xconf.Adapters.Assign.Overlap.{
  AllHeld, AllFree-end, IsApartFrom, assign_all-AllApart, assign_all-nil, assign_all-cons,
}
use xconf.Adapters.Assign.Selected.{
  selected, selected-none, selected-some, AllApart-selected, IsDisjoint,
}
use xconf.Adapters.Numbers.{spend}
use xconf.Adapters.Directory.{
  Source, Library, Progress, value_of, start, at_least_one, read_file, note, read_names,
}
use xconf.Adapters.Directory.Healthy.{
  spend-fits, probe_of, healthy, read_file-probe_of, total, total-some, total-none,
}

below_zero : (n : ℕ) → ¬ (n < 0)
below_zero n h = omega (arith, h)

leb-at_least_one :
    (size remaining : ℕ) → size ≤ remaining → leb size (at_least_one remaining) ≡ true
leb-at_least_one size remaining fits = ground arith

spend-over : (remaining size : ℕ) → remaining < size → spend remaining size ≡ none
spend-over remaining size over = ground arith

module _ (lib : Library) (s : Source) (tree : Str → Option Str) (base : Str) where
  -- The contents of a bound file, and the value that they make.
  abbrev pub at : Str → Option Str
  at name = tree (lib.join base name)

  abbrev pub value_at : Str → Option Value
  value_at name = elim (at name) [
    | none ↦ none
    | some all ↦ some (text plain (value_of s.trim all))
  ]

  -- The loop goes on where no file is, where one is that fits, and where one is whose bytes or place are
  -- refused it stops.
  read_names-none :
      (name : Str) (p : FieldPath) (bs : Dict FieldPath) (st : Progress)
      → at name ≡ none
      → read_names lib s (healthy tree) base ((name, p) ∷ bs) st
        ≡ read_names lib s (healthy tree) base bs st
  unfolding read_names read_file
  read_names-none name p bs st e = rw (e, probe_of) refl

  read_names-some :
      (name : Str) (p : FieldPath) (bs : Dict FieldPath) (st : Progress) (all : Str)
      → at name ≡ some all
      → st.remaining < 2 ^ 63 - 1
      → read_names lib s (healthy tree) base ((name, p) ∷ bs) st ≡ (
          (if leb (length all) (at_least_one st.remaining) then ok (some all) else err too_large)
          >>= λ o. elim o [
            | none ↦ read_names lib s (healthy tree) base bs st
            | some got ↦
                note lib s name p got st >>= λ next. read_names lib s (healthy tree) base bs next
          ])
  unfolding read_names
  read_names-some name p bs st all e small =
      rw
        (ap (λ o. read_file (probe_of o) st.remaining) e
          ∙ read_file-probe_of all st.remaining small)
        refl

  note-fits :
      (name : Str) (p : FieldPath) (all : Str) (st : Progress) (m : Fields)
      → length all ≤ st.remaining
      → assign parent p (text plain (value_of s.trim all)) st.values ≡ some m
      → (next : Progress) × (note lib s name p all st ≡ ok next)
        × (next.values ≡ m)
        × (next.remaining ≡ st.remaining - length all)
  unfolding note
  note-fits name p all st m fits e =
      rw (spend-fits st.remaining (length all) fits, e, note) (_, refl, refl, refl)

  note-over :
      (name : Str) (p : FieldPath) (all : Str) (st next : Progress)
      → st.remaining < length all
      → note lib s name p all st ≢ ok next
  unfolding note
  note-over name p all st next over h =
      cc (rw (spend-over st.remaining (length all) over, note) at h)

  note-unplaced :
      (name : Str) (p : FieldPath) (all : Str) (st next : Progress)
      → assign parent p (text plain (value_of s.trim all)) st.values ≡ none
      → note lib s name p all st ≢ ok next
  unfolding note
  note-unplaced name p all st next d h = elim (Option-cases (spend st.remaining (length all))) [
    | inl e ↦ cc (rw (e, note) at h)
    | inr (n, e) ↦ cc (rw (e, d, note) at h)
  ]

  note-remaining :
      (name : Str) (p : FieldPath) (all : Str) (st next : Progress)
      → note lib s name p all st ≡ ok next
      → next.remaining + length all ≡ st.remaining
  note-remaining name p all st next h = elim (Bool-cases (ltb st.remaining (length all))) [
    | inl over ↦ absurd (note-over name p all st next (ground arith) h)
    | inr fits ↦
        elim (Option-cases (assign parent p (text plain (value_of s.trim all)) st.values)) [
          | inl d ↦ absurd (note-unplaced name p all st next d h)
          | inr (m, d) ↦
              let (got, c, v, rem) = note-fits name p all st m (ground arith) d in
              let same : got ≡ next = cc (c, h) in
              subst (λ x. x.remaining + length all ≡ st.remaining) same (ground (arith, rem))
        ]
  ]

  read_names-fits :
      (bs : Dict FieldPath) (st : Progress) (r : Fields)
      → st.remaining < 2 ^ 63 - 1
      → total at bs ≤ st.remaining
      → assign_all parent (selected value_at bs) st.values ≡ some r
      → (out : Progress) × (read_names lib s (healthy tree) base bs st ≡ ok out)
        × (out.values ≡ r)
        × (out.remaining + total at bs ≡ st.remaining)
  unfolding read_names
  read_names-fits [] st r small fits h =
      (st, refl, assign_all-nil parent st.values r h, omega arith)
  read_names-fits ((name, p) ∷ bs) st r small fits h = elim (Option-cases (at name)) [
    | inl e ↦
        let same = total-none at name p bs e in
        let (out, d, v, w) = read_names-fits bs st r small (omega (arith, same, fits)) (
          subst (λ ws. assign_all parent ws st.values ≡ some r)
            (selected-none value_at name p bs (rw (e, value_at) refl)) h) in
        (out, read_names-none name p bs st e ∙ d, v, ap (λ n. out.remaining + n) same ∙ w)
    | inr (all, e) ↦
        let sum = total-some at name p bs all e in
        let (m, f, g) =
          assign_all-cons parent p (text plain (value_of s.trim all)) (selected value_at bs)
            st.values r
            (subst (λ ws. assign_all parent ws st.values ≡ some r)
              (selected-some value_at name p bs (text plain (value_of s.trim all))
                (rw (e, value_at) refl))
              h) in
        let (next, c, v, rem) = note-fits name p all st m (omega (arith, sum, fits)) f in
        let (out, d, w, left) =
          read_names-fits bs next r (omega (arith, rem, small)) (omega (arith, rem, sum, fits))
            (subst (λ x. assign_all parent (selected value_at bs) x ≡ some r) (sym v) g) in
        (
          out,
          read_names-some name p bs st all e small
              ∙ rw (leb-at_least_one (length all) st.remaining (omega (arith, sum, fits))) (rw c d),
          w,
          omega (arith, rem, sum, left, fits),
        )
  ]

  read_names-over :
      (bs : Dict FieldPath) (st : Progress)
      → st.remaining < 2 ^ 63 - 1
      → st.remaining < total at bs
      → (e : Error) × (read_names lib s (healthy tree) base bs st ≡ err e)
  read_names-over [] st small over = absurd (below_zero st.remaining over)
  read_names-over ((name, p) ∷ bs) st small over = elim (Option-cases (at name)) [
    | inl e ↦
        let (x, d) = read_names-over bs st small (omega (arith, total-none at name p bs e, over)) in
        (x, read_names-none name p bs st e ∙ d)
    | inr (all, e) ↦
        let sum = total-some at name p bs all e in
        elim (Bool-cases (leb (length all) (at_least_one st.remaining))) [
          | inr big ↦ (too_large, read_names-some name p bs st all e small ∙ rw big refl)
          | inl fits ↦ elim (Result-cases (note lib s name p all st)) [
            | inr (x, c) ↦ (x, read_names-some name p bs st all e small ∙ rw fits (rw c refl))
            | inl (next, c) ↦
                let rem = note-remaining name p all st next c in
                let (x, d) =
                  read_names-over bs next (omega (arith, rem, small))
                    (omega (arith, rem, sum, over)) in
                (x, read_names-some name p bs st all e small ∙ rw fits (rw c d))
          ]
        ]
  ]

  -- In a directory in which nothing fails, where the bound paths do not overlap and the limit is
  -- below the greatest int64: if the files that are there have no more bytes together than remain,
  -- the loop over the names reads them all, no type assertion fails, each content stands at its
  -- path, and a path apart from all of these has nothing; if they have more, the loop returns an
  -- error.
  pub read_names-healthy :
      (bs : Dict FieldPath) (limit : ℕ)
      → limit < 2 ^ 63 - 1
      → IsDisjoint bs
      → ((total at bs ≤ limit)
          × ((out : Progress) × (read_names lib s (healthy tree) base bs (start limit) ≡ ok out)
              × AllHeld out.values (selected value_at bs)
              × ((q : FieldPath)
                  → IsApartFrom q (selected value_at bs)
                  → get_path q (obj plain out.values) ≡ get_path q (obj plain end))))
        ⊎ ((limit < total at bs)
            × ((e : Error) × (read_names lib s (healthy tree) base bs (start limit) ≡ err e)))
  read_names-healthy bs limit small d = elim (Bool-cases (ltb limit (total at bs))) [
    | inl over ↦ inr (ground arith, read_names-over bs (start limit) small (ground arith))
    | inr fits ↦
        let a = AllApart-selected value_at bs d in
        let (r, e, held, rest) =
          assign_all-AllApart parent parent-IsWalk (selected value_at bs) end a
            (AllFree-end (selected value_at bs) a) in
        let (out, c, v, left) = read_names-fits bs (start limit) r small (ground arith) e in
        inl (
          ground arith,
          (
            out,
            c,
            subst (λ m. AllHeld m (selected value_at bs)) (sym v) held,
            λ q h. ap (λ m. get_path q (obj plain m)) v ∙ rest q h,
          ),
        )
  ]
