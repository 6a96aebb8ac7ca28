-- ===== src/Loader/Noted.antt =====
-- What a snapshot tells of its sources: their revisions, and which of them were stale.
use xconf.Prelude.{
  ℕ, ◌≡◌, refl, ap, ◌∙◌, inl, inr, ◌≢◌, true, false, Option, none, some, List, [], ◌∷◌, arith,
  if◌then◌else◌, Option-cases, All, All,
}
use xconf.Text.{Str, str_eq}
use xconf.Text.Laws.{str_eq_iff, str_eq_refl}
use xconf.Text.Dict.{lookup, lookup-insert}
use xconf.Error.{Error, ok, Yields, Yields-bind, Yields-map, Degraded, healthy, stale}
use xconf.Layer.{Layer}
use xconf.Schema.{Getters}
use xconf.Merge.Apply.{Merger}
use xconf.Loader.{
  Source, Loading, Context, seen_before, mark_stale, note_layer, load_sources, start,
}
use xconf.Loader.{Snapshot, Engine, load, finish, snapshot}
use xconf.Loader.Sources.{IsBindable, seen_before_iff, Loads, done, next, load_sources-Loads}

-- degraded[name]
unfoldable pub get_stale : Str → Degraded → Option Error
get_stale n healthy = none
get_stale n (stale m e d) = if str_eq m n then some e else get_stale n d

get_stale-mark_stale :
    (n m : Str) (e : Error) (d : Degraded)
    → get_stale n (mark_stale m e d) ≡ (if str_eq m n then some e else get_stale n d)
unfolding get_stale mark_stale
get_stale-mark_stale n m e healthy = refl
get_stale-mark_stale n m e (stale i f d) =
    ground (arith, str_eq_iff m n, str_eq_iff i m, str_eq_iff i n, get_stale-mark_stale n m e d)

-- What a load keeps about one source.
abbrev pub note_of : Str → Loading → Option Str × Option Error
note_of n st = (lookup n st.revisions, get_stale n st.degraded)

-- The layer that the source returned, and the record of its revision and of its staleness.
abbrev pub IsNoted : {Schema : Type 0} → Schema → Loading → Source Schema → Type 0
IsNoted root st s =
    (l : Layer) × (s.read root ≡ ok l)
    × (lookup s.name st.revisions ≡ some l.revision)
    × (get_stale s.name st.degraded ≡ l.stale)

note_layer_self :
    (n : Str) (l : Layer) (m : Merger) (st : Loading)
    → get_stale n st.degraded ≡ none
    → (lookup n (note_layer n l m st).revisions ≡ some l.revision)
      × (get_stale n (note_layer n l m st).degraded ≡ l.stale)
unfolding note_layer
note_layer_self n l m st fresh = (
  rw (lookup-insert, str_eq_refl) refl,
  elim (Option-cases l.stale) [
    | inl e ↦ ground arith
    | inr (cause, e) ↦ ground (arith, get_stale-mark_stale n n cause st.degraded, str_eq_refl n)
  ],
)

note_layer_other :
    (n k : Str) (l : Layer) (m : Merger) (st : Loading)
    → n ≢ k
    → (lookup k (note_layer n l m st).revisions ≡ lookup k st.revisions)
      × (get_stale k (note_layer n l m st).degraded ≡ get_stale k st.degraded)
unfolding note_layer
note_layer_other n k l m st away = (
  ground (arith, lookup-insert k n l.revision st.revisions, str_eq_iff n k),
  elim (Option-cases l.stale) [
    | inl e ↦ ground arith
    | inr (cause, e) ↦ ground (arith, get_stale-mark_stale k n cause st.degraded, str_eq_iff n k)
  ],
)

seen_later :
    (k n : Str) (seen : List Str) → seen_before k seen ≡ true → seen_before k (n ∷ seen) ≡ true
unfolding seen_before
seen_later k n seen h = ground arith

unseen :
    (k n : Str) (seen : List Str)
    → seen_before k (n ∷ seen) ≡ false
    → (n ≢ k) × (seen_before k seen ≡ false)
unfolding seen_before
unseen k n seen h = ground (arith, str_eq_iff n k)

seen_first : (n : Str) (seen : List Str) → seen_before n (n ∷ seen) ≡ true
unfolding seen_before
seen_first n seen = ground (arith, str_eq_refl n)

module _ {Schema Field : Type 0} (g : Getters Schema Field) (root : Schema) where
  -- Sources with other names leave what is noted of `k`.
  note_of-Loads :
      (k : Str) (seen : List Str) (ss : List (Source Schema)) (st last : Loading)
      → seen_before k seen ≡ true
      → IsBindable seen ss
      → Loads g root last ss st
      → (lookup k last.revisions ≡ lookup k st.revisions)
        × (get_stale k last.degraded ≡ get_stale k st.degraded)
  note_of-Loads k seen [] st last old b (done e) = ground arith
  note_of-Loads k seen (s ∷ ss) st last old b (next l m e f rest) =
      let later =
        note_of-Loads k (s.name ∷ seen) ss (note_layer s.name l m st) last
          (seen_later k s.name seen old) b.2 rest in
      let here =
        note_layer_other s.name k l m st
          (λ same. cc (same, old, (seen_before_iff s.name seen).1 b.1)) in
      (later.0 ∙ here.0, later.1 ∙ here.1)

  abbrev Fresh : List Str → Loading → Type 0
  Fresh seen st = (k : Str) → seen_before k seen ≡ false → get_stale k st.degraded ≡ none

  All-IsNoted :
      (seen : List Str) (ss : List (Source Schema)) (st last : Loading)
      → IsBindable seen ss
      → Fresh seen st
      → Loads g root last ss st
      → All (IsNoted root last) ss
  All-IsNoted seen [] st last b fresh (done e) = tt
  All-IsNoted seen (s ∷ ss) st last b fresh (next l m e f rest) =
      let kept =
        note_of-Loads s.name (s.name ∷ seen) ss (note_layer s.name l m st) last
          (seen_first s.name seen) b.2 rest in
      let here =
        note_layer_self s.name l m st (fresh s.name ((seen_before_iff s.name seen).1 b.1)) in
      (
        (l, e, kept.0 ∙ here.0, kept.1 ∙ here.1),
        All-IsNoted (s.name ∷ seen) ss (note_layer s.name l m st) last b.2
            (λ k h.
              let (away, new) = unseen k s.name seen h in
              (note_layer_other s.name k l m st away).1 ∙ fresh k new)
            rest,
      )

  Fresh-start : Fresh [] start
  unfolding get_stale
  Fresh-start k h = refl

module _ {Schema Field Baked Validation Report : Type 0} (g : Getters Schema Field)
    (engine : Engine Baked Validation Report) (root : Schema) where
  -- What a source told a snapshot.
  abbrev pub Told : Snapshot Baked Validation Report → Source Schema → Type 0
  Told snap s =
      (l : Layer) × (s.read root ≡ ok l)
      × (lookup s.name snap.revisions ≡ some l.revision)
      × (get_stale s.name snap.degraded ≡ l.stale)

  Told-of :
      (snap : Snapshot Baked Validation Report) (last : Loading) (ss : List (Source Schema))
      → snap.revisions ≡ last.revisions
      → snap.degraded ≡ last.degraded
      → All (IsNoted root last) ss
      → All (Told snap) ss
  Told-of snap last [] p q h = tt
  Told-of snap last (s ∷ ss) p q ((l, e, r, d), h) =
      ((l, e, ap (lookup s.name) p ∙ r, ap (get_stale s.name) q ∙ d), Told-of snap last ss p q h)

  finish_notes :
      (now : ℕ) (st : Loading)
      → Yields
          (λ snap. (snap.revisions ≡ st.revisions) × (snap.degraded ≡ st.degraded))
          (finish g engine root now st)
  unfolding finish snapshot
  finish_notes now st = ground arith

  -- A load of sources with different names that succeeds has read every source without an error;
  -- the snapshot has the revision of each layer, and for each source its error if its layer was
  -- stale, and none if it was not.
  pub load-Told :
      (ctx : Context) (now : ℕ) (ss : List (Source Schema))
      → IsBindable [] ss
      → Yields (λ snap. All (Told snap) ss) (load g engine root ctx now ss)
  unfolding load
  load-Told ctx now ss b =
      Yields-bind (λ snap. All (Told snap) ss) (load_sources g root ctx 0 ss start)
        (finish g engine root now)
        (Yields-map (λ last. Loads g root last ss start) _ (load_sources g root ctx 0 ss start)
          (λ last steps.
            Yields-map _ (λ snap. All (Told snap) ss) (finish g engine root now last)
              (λ snap same.
                Told-of snap last ss same.0 same.1
                  (All-IsNoted g root [] ss start last b (Fresh-start g root) steps))
              (finish_notes now last))
          (load_sources-Loads g root ctx 0 ss start))
