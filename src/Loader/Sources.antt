-- ===== src/Loader/Sources.antt =====
-- The sources of a load: which lists of sources are accepted, and what a load has read from them.
use mathlib.Core.Path.{subst}
use xconf.Prelude.{
  ℕ, suc, ◌≡◌, refl, sym, inl, inr, ◌≢◌, ◌↔◌, false, Option, none, some, List, [], ◌∷◌, map, arith,
  All,
}
use xconf.Text.{Str}
use xconf.Text.Laws.{str_eq_iff}
use xconf.Error.{
  Error, ok, err, ◌>>=◌, Yields, Yields-bind, Yields-map, Yields-all, Result-cases, read, merge,
  source_error,
}
use xconf.Layer.{Layer}
use xconf.Schema.{Getters}
use xconf.Merge.Apply.{Merger, apply}
use xconf.Loader.{
  Source, Loading, Context, bind_from, bind, seen_before, note_layer, load_source, load_sources,
  alive,
}

-- The name is none of these.
abbrev IsNew : Str → List Str → Type 0
IsNew n ms = All (λ m. m ≢ n) ms

pub seen_before_iff : (n : Str) (ms : List Str) → (seen_before n ms ≡ false) ↔ IsNew n ms
unfolding seen_before
seen_before_iff n [] = (λ e. tt, λ h. refl)
seen_before_iff n (m ∷ ms) = ground (arith, str_eq_iff m n, seen_before_iff n ms)

-- Every source has a name, none has one of `seen`, and no two have the same.
abbrev pub IsBindable : {Schema : Type 0} → List Str → List (Source Schema) → Type 0
IsBindable seen [] = Unit
IsBindable seen (s ∷ ss) = (s.name ≢ []) × IsNew s.name seen × IsBindable (s.name ∷ seen) ss

module _ {Schema : Type 0} where
  bind_from-ok :
      (seen : List Str) (ss : List (Source Schema))
      → IsBindable seen ss
      → bind_from seen (map some ss) ≡ ok ss
  unfolding bind_from
  bind_from-ok seen [] h = refl
  bind_from-ok seen (s ∷ ss) h =
      ground
        (arith, str_eq_iff s.name [], seen_before_iff s.name seen, bind_from-ok (s.name ∷ seen) ss)

  bind_from-IsBindable :
      (seen : List Str) (given : List (Option (Source Schema)))
      → Yields (λ ss. (given ≡ map some ss) × IsBindable seen ss) (bind_from seen given)
  unfolding bind_from
  bind_from-IsBindable seen [] = (refl, tt)
  bind_from-IsBindable seen (none ∷ given) = tt
  bind_from-IsBindable seen (some s ∷ given) = ground (
    arith,
    str_eq_iff s.name [],
    seen_before_iff s.name seen,
    bind_from-IsBindable (s.name ∷ seen) given,
  )

  -- Sources are accepted exactly if none is nil, each has a name and no two share one; they are
  -- then taken in the given order.
  pub bind_iff :
      (given : List (Option (Source Schema))) (ss : List (Source Schema))
      → (bind given ≡ ok ss) ↔ ((given ≡ map some ss) × IsBindable [] ss)
  unfolding bind
  bind_iff given ss =
      (λ e. rw e at (bind_from-IsBindable [] given), λ (e, h). rw e (bind_from-ok [] ss h))

module _ {Schema Field : Type 0} (g : Getters Schema Field) (root : Schema) where
  module _ (s : Source Schema) (st : Loading) where
    pub load_source-ok :
        (l : Layer) (m : Merger)
        → s.read root ≡ ok l
        → apply g root s.name l st.merger ≡ ok m
        → load_source g root s st ≡ ok (note_layer s.name l m st)
    unfolding load_source
    load_source-ok l m e f = rw (e, load_source, f) refl

    -- A source that cannot be read, or whose layer cannot be merged, fails the load with an error
    -- that names the source and the stage.
    pub load_source-read :
        (x : Error)
        → s.read root ≡ err x
        → load_source g root s st ≡ err (source_error s.name read x)
    unfolding load_source
    load_source-read x e = rw (e, load_source) refl

    pub load_source-merge :
        (l : Layer) (x : Error)
        → s.read root ≡ ok l
        → apply g root s.name l st.merger ≡ err x
        → load_source g root s st ≡ err (source_error s.name merge x)
    unfolding load_source
    load_source-merge l x e f = rw (e, load_source, f) refl

    load_source_lem :
        Yields
          (λ st'.
            (l : Layer) × (m : Merger) × (s.read root ≡ ok l)
            × (apply g root s.name l st.merger ≡ ok m)
            × (note_layer s.name l m st ≡ st'))
          (load_source g root s st)
    load_source_lem = elim (Result-cases (s.read root)) [
      | inl (l, e) ↦ elim (Result-cases (apply g root s.name l st.merger)) [
        | inl (m, f) ↦ rw (load_source-ok l m e f) (l, m, e, f, refl)
        | inr (x, f) ↦ rw (load_source-merge l x e f) tt
      ]
      | inr (x, e) ↦ rw (load_source-read x e) tt
    ]

  load_cons :
      (ctx : Context) (i : ℕ) (s : Source Schema) (ss : List (Source Schema)) (st : Loading)
      → load_sources g root ctx i (s ∷ ss) st ≡ (
          alive (ctx i) >>= λ living.
          load_source g root s st >>= λ st'. load_sources g root ctx (suc i) ss st')
  unfolding load_sources
  load_cons ctx i s ss st = refl

-- A load that read and merged every source, in their order.
pub data Loads {Schema Field : Type 0} (g : Getters Schema Field) (root : Schema) (last : Loading)
    : List (Source Schema) → Loading → Type 0 where
  done : {st : Loading} → st ≡ last → Loads g root last [] st
  next :
      {s : Source Schema} {ss : List (Source Schema)} {st : Loading} (l : Layer) (m : Merger)
      → s.read root ≡ ok l
      → apply g root s.name l st.merger ≡ ok m
      → Loads g root last ss (note_layer s.name l m st)
      → Loads g root last (s ∷ ss) st

module _ {Schema Field : Type 0} (g : Getters Schema Field) (root : Schema) where
  -- A load that returns has taken all the steps.
  pub load_sources-Loads :
      (ctx : Context) (i : ℕ) (ss : List (Source Schema)) (st : Loading)
      → Yields (λ last. Loads g root last ss st) (load_sources g root ctx i ss st)
  load_sources-Loads ctx i [] st =
      unfold load_sources in
      Yields-bind (λ last. Loads g root last [] st) (alive (ctx i)) (λ living. ok st)
        (Yields-all (λ living. Loads g root st [] st) (alive (ctx i)) (λ living. done refl))
  load_sources-Loads ctx i (s ∷ ss) st = rw load_cons (
      Yields-bind (λ last. Loads g root last (s ∷ ss) st) (alive (ctx i)) _
        (Yields-all _ (alive (ctx i)) λ living.
          Yields-bind (λ last. Loads g root last (s ∷ ss) st) (load_source g root s st) _
            (Yields-map _ _ (load_source g root s st)
              (λ st' (l, m, e, f, same).
                Yields-map (λ last. Loads g root last ss st')
                  (λ last. Loads g root last (s ∷ ss) st) (load_sources g root ctx (suc i) ss st')
                  (λ last rest. next l m e f (subst (Loads g root last ss) (sym same) rest))
                  (load_sources-Loads ctx (suc i) ss st'))
              (load_source_lem g root s st))))
