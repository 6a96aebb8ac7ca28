-- ===== src/Adapters/Env/Decode/Laws.antt =====
-- What the loop over the variables of an environment leaves.
use mathlib.Core.Path.{subst}
use xconf.Prelude.{
  ℕ, Bool, ◌≡◌, ◌≢◌, ◌⊎◌, inl, inr, refl, sym, ap, ◌∙◌, false, none, some, List, [], ◌∷◌, ◌++◌,
  append_assoc, map, All, Bool-cases, Option-cases,
}
use xconf.Text.{Str}
use xconf.Text.Dict.{Dict, lookup}
use xconf.Pointer.{FieldPath, pointer}
use xconf.Error.{Result, ok, err, Result-cases, Yields, fault, parent_object, overlapping_names}
use xconf.Value.{Value, plain, obj, Fields, end}
use xconf.Value.Ordered.{get_path}
use xconf.Merge.Edits.Apart.{IsApart}
use xconf.Adapters.Assign.{strict_parent, overlaps_any}
use xconf.Adapters.Assign.Laws.{IsFree, IsFree-end, IsWalk, assign-IsFree, Writes}
use xconf.Adapters.Assign.Overlap.{AllApart, AllHeld, IsApartFrom, IsApart-sym, overlaps_any-paths}
use xconf.Adapters.Env.{Source, Binding}
use xconf.Adapters.Env.Names.{Bindings, visit, ended}
use xconf.Adapters.Env.Names.Paths.{HasPaths, insert-HasPaths, visit-Leaves, Leaves}
use xconf.Schema.{Getters}
use xconf.Adapters.Env.{Unicode}
use xconf.Adapters.Env.Decode.{
  Json, value_of, Progress, stored, place, split_value, of_json, json_value, invalid, trailing,
  value, assign_var, assign_vars, refuses, fresh, bind_all,
}

strict-IsWalk : IsWalk strict_parent
strict-IsWalk = record { makes = refl; enters = λ n. refl }

-- What was written, the newest first, is there; no two of the paths overlap, and there is nothing else.
pub record IsWritten (st : Progress) (ws : List (FieldPath × Value)) : Type 0 where
  pub seen : st.assigned ≡ map (λ w. pointer w.0) ws
  pub apart : AllApart ws
  pub held : AllHeld st.values ws
  pub rest :
      (q : FieldPath)
      → IsApartFrom q ws
      → (get_path q (obj plain st.values) ≡ get_path q (obj plain end))
        × (IsFree q end → IsFree q st.values)

fresh-IsWritten : IsWritten fresh []
fresh-IsWritten = record { seen = refl; apart = tt; held = tt; rest = λ q h. (refl, λ f. f) }

held_still :
    (p : FieldPath) (v : Value) (m r : Fields) (ws : List (FieldPath × Value))
    → Writes p v m r
    → All (λ w. IsApart p w.0) ws
    → AllHeld m ws
    → AllHeld r ws
held_still p v m r [] w a h = tt
held_still p v m r ((q, x) ∷ ws) w a h = ((w.1 q a.0).0 ∙ h.0, held_still p v m r ws w a.1 h.1)

apart_from :
    (p : FieldPath) (ws : List (FieldPath × Value)) → All (λ w. IsApart p w.0) ws → IsApartFrom p ws
apart_from p [] a = tt
apart_from p ((q, v) ∷ ws) a = (IsApart-sym p q a.0, apart_from p ws a.1)

IsFree-nonempty : (p : FieldPath) → p ≢ [] → IsFree p end
IsFree-nonempty [] n = absurd (n refl)
IsFree-nonempty (k ∷ p) n = IsFree-end k p

-- A value is refused because of an overlap, or it is there and all else is as it was.
place-IsWritten :
    (name : Str) (p : FieldPath) (v : Value) (st : Progress) (ws : List (FieldPath × Value))
    → p ≢ []
    → IsWritten st ws
    → (place name p v st ≡ err (fault (overlapping_names (pointer p))))
      ⊎ ((out : Progress) × (place name p v st ≡ ok out) × IsWritten out ((p, v) ∷ ws))
unfolding place
place-IsWritten name p v st ws n w = elim (Bool-cases (overlaps_any (pointer p) st.assigned)) [
  | inl e ↦ inl (rw (e, place) refl)
  | inr e ↦
      let a =
        overlaps_any-paths p ws (subst (λ ps. overlaps_any (pointer p) ps ≡ false) w.seen e) in
      let (m, f, wr) =
        assign-IsFree strict_parent strict-IsWalk p v st.values
          ((w.rest p (apart_from p ws a)).1 (IsFree-nonempty p n)) in
      inr (
        stored name p m st,
        rw (e, f, place) refl,
        record {
          seen = ap (λ ps. pointer p ∷ ps) w.seen;
          apart = (n, a, w.apart);
          held = (wr.0, held_still p v st.values m ws wr a w.held);
          rest =
              λ q h. ((wr.1 q h.0).0 ∙ (w.rest q h.1).0, λ f. (wr.1 q h.0).1 ((w.rest q h.1).1 f));
        },
      )
]

-- The bindings of options keep the paths of the schema's ones.
bind_all-HasPaths :
    (bs : Dict FieldPath) (b : Bindings) → HasPaths b → Yields HasPaths (bind_all bs b)
unfolding bind_all
bind_all-HasPaths [] b h = h
bind_all-HasPaths ((name, []) ∷ bs) b h = tt
bind_all-HasPaths ((name, k ∷ p) ∷ bs) b h =
    bind_all-HasPaths bs _ (insert-HasPaths name _ b (λ z. cc) h)

-- The errors of a single value, none of which is the one of a parent that is no object.
split_value-errors : (raw sep : Str) → split_value raw sep ≢ err (fault parent_object)
unfolding split_value
split_value-errors raw [] h = cc
split_value-errors [] (c ∷ sep) h = cc
split_value-errors (r ∷ raw) (c ∷ sep) h = cc

of_json-errors : (name : Str) (j : Json) → of_json name j ≢ err (fault parent_object)
unfolding of_json
of_json-errors name invalid h = cc
of_json-errors name trailing h = cc
of_json-errors name (value v) h = cc

json_value-errors :
    (json : Str → Json) (name raw : Str) → json_value json name raw ≢ err (fault parent_object)
unfolding json_value
json_value-errors json name [] h = cc
json_value-errors json name (r ∷ raw) h = of_json-errors name (json (r ∷ raw)) h

value_of-errors :
    (json : Str → Json) (s : Source) (name : Str) (b : Binding) (raw : Str)
    → value_of json s name b raw ≢ err (fault parent_object)
unfolding value_of
value_of-errors json s name b raw h = elim (Option-cases (lookup name s.splits)) [
  | inr (sep, e) ↦ split_value-errors raw sep (rw (e, value_of) at h)
  | inl e ↦ elim (Bool-cases b.container) [
    | inl c ↦ json_value-errors json name raw (rw (e, c, value_of) at h)
    | inr c ↦ cc (rw (e, c, value_of) at h)
  ]
]

All-middle {ℓ κ} :
    {A : Type ℓ} (P : A → Type κ) (xs : List A) (x : A) (ys : List A) → All P (xs ++ x ∷ ys) → P x
All-middle P [] x ys a = a.0
All-middle P (z ∷ xs) x ys a = All-middle P xs x ys a.1

module _ (json : Str → Json) (s : Source) (b : Bindings) where
  -- The variable is not bound, counts as unset, or has its value at its path.
  pub data IsRead (name raw : Str) (m : Fields) : Type 0 where
    unbound : lookup name b ≡ none → IsRead name raw m
    unset :
        (bound : Binding)
        → lookup name b ≡ some bound
        → value_of json s name bound raw ≡ ok none
        → IsRead name raw m
    there :
        (bound : Binding) (v : Value)
        → lookup name b ≡ some bound
        → value_of json s name bound raw ≡ ok (some v)
        → get_path bound.path (obj plain m) ≡ some v
        → IsRead name raw m

  -- All the variables are read, what is there was written at paths that do not overlap, and the one error
  -- that there never is.
  abbrev pub IsSound : Dict Str → List (FieldPath × Value) → Result Progress → Type 0
  IsSound vars ws (ok out) =
      (later : List (FieldPath × Value)) × IsWritten out (later ++ ws)
      × All (λ var. IsRead var.0 var.1 out.values) vars
  IsSound vars ws (err e) = e ≢ fault parent_object

  -- One more variable, that writes nothing.
  no_write :
      (name raw : Str) (vars : Dict Str) (ws : List (FieldPath × Value)) (got : Result Progress)
      → ((m : Fields) → IsRead name raw m)
      → IsSound vars ws got
      → IsSound ((name, raw) ∷ vars) ws got
  no_write name raw vars ws (ok out) r (later, w, all) = (later, w, (r out.values, all))
  no_write name raw vars ws (err e) r n = n

  -- One more variable, that wrote its value before the others.
  one_write :
      (name raw : Str) (vars : Dict Str) (bound : Binding) (v : Value)
      (ws : List (FieldPath × Value)) (got : Result Progress)
      → lookup name b ≡ some bound
      → value_of json s name bound raw ≡ ok (some v)
      → IsSound vars ((bound.path, v) ∷ ws) got
      → IsSound ((name, raw) ∷ vars) ws got
  one_write name raw vars bound v ws (ok out) e f (later, w, all) = (
    later ++ (bound.path, v) ∷ [],
    subst (IsWritten out) (sym (append_assoc later ((bound.path, v) ∷ []) ws)) w,
    (
      there bound v e f (
          All-middle (λ x. get_path x.0 (obj plain out.values) ≡ some x.1) later (bound.path, v) ws
            w.held),
      all,
    ),
  )
  one_write name raw vars bound v ws (err z) e f n = n

  -- In whatever order the variables come, where every bound path has a part: the loop reads all of them,
  -- with each value at its path, or it returns an error, and never the one of a parent that is no object.
  assign_vars-IsSound :
      (vars : Dict Str) (st : Progress) (ws : List (FieldPath × Value))
      → HasPaths b
      → IsWritten st ws
      → IsSound vars ws (assign_vars json s b vars st)
  unfolding assign_vars assign_var
  assign_vars-IsSound [] st ws n w = ([], w, tt)
  assign_vars-IsSound ((name, raw) ∷ vars) st ws n w = elim (Option-cases (lookup name b)) [
    | inl e ↦ elim (Bool-cases (refuses s name)) [
      | inl refused ↦ rw (e, refused, assign_vars) (λ d. cc)
      | inr taken ↦
          rw (e, taken, assign_vars)
            (no_write name raw vars ws (assign_vars json s b vars st) (λ m. unbound e)
              (assign_vars-IsSound vars st ws n w))
    ]
    | inr (bound, e) ↦ elim (Bool-cases bound.ambiguous) [
      | inl amb ↦ rw (e, amb, assign_vars) (λ d. cc)
      | inr plainly ↦ elim (Result-cases (value_of json s name bound raw)) [
        | inr (x, f) ↦
            rw (e, plainly, f, assign_vars)
              (λ d. value_of-errors json s name bound raw (f ∙ ap err d))
        | inl (none, f) ↦
            rw (e, plainly, f, assign_vars)
              (no_write name raw vars ws (assign_vars json s b vars st) (λ m. unset bound e f)
                (assign_vars-IsSound vars st ws n w))
        | inl (some v, f) ↦ elim (place-IsWritten name bound.path v st ws (n name bound e) w) [
          | inl c ↦ rw (e, plainly, f, c, assign_vars) (λ d. cc)
          | inr (next, c, wn) ↦
              rw (e, plainly, f, c, assign_vars)
                (one_write name raw vars bound v ws (assign_vars json s b vars next) e f
                  (assign_vars-IsSound vars next ((bound.path, v) ∷ ws) n wn))
        ]
      ]
    ]
  ]

  pub assign_vars-fresh :
      (vars : Dict Str) → HasPaths b → IsSound vars [] (assign_vars json s b vars fresh)
  assign_vars-fresh vars n = assign_vars-IsSound vars fresh [] n fresh-IsWritten

nothing_bound : HasPaths []
unfolding lookup
nothing_bound name bound e = cc

-- With the names of a schema and of the options: the loop over the variables reads all of them, in whatever
-- order they come. Each value stands at its path, no two of the paths that were written overlap, and a path
-- apart from all of these is as in an empty map; or the loop returns an error, and never the one of a parent
-- that is no object.
pub assign_vars-schema :
    {Schema Field : Type 0} (g : Getters Schema Field) (same : Schema → Schema → Bool) (u : Unicode)
    (json : Str → Json) (s : Source) (root : Schema) (fuel : ℕ) (names bound : Bindings)
    (vars : Dict Str)
    → visit g same u s root fuel [] root [] [] ≡ ended (ok names)
    → bind_all s.bindings names ≡ ok bound
    → IsSound json s bound vars [] (assign_vars json s bound vars fresh)
assign_vars-schema g same u json s root fuel names bound vars e d =
    let named = subst Leaves e (visit-Leaves g same u s root fuel [] root [] [] nothing_bound) in
    assign_vars-fresh json s bound vars
      (subst (Yields HasPaths) d (bind_all-HasPaths s.bindings names named))
