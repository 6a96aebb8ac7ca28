-- ===== src/Runtime/Open.antt =====
-- The start of a runtime, `openLoader` of runtime.go: watching the sources, and the first load,
-- which waits while only degraded sources stand in its way.
use mathlib.Core.List.{reverse, reverse-cons}
use xconf.Prelude.{
  ◌≡◌, refl, sym, ap, ◌∙◌, append_assoc, append-nil, Bool, true, false, Option, none, some, List,
  [], ◌∷◌, ◌++◌, map, All, if◌then◌else◌,
}
use xconf.Text.{Str}
use xconf.Error.{
  Error, Result, ok, err, source_error, named_fault, public, degraded, bake_failed, joined, watch,
}
use xconf.Loader.{Snapshot}

-- What watching a source gives: it may be no Watcher, and a Watcher returns an error or not, with a
-- stop function or not.
pub data Watching : Type 0 where
  unwatched : Watching
  watched : Bool → Option Error → Watching

-- The stop functions, by the names of their sources, the last one first; or the error, with the
-- stop functions that are called then, in their order.
pub data Registered : Type 0 where
  watching : List Str → Registered
  undone : Error → List Str → Registered

unfoldable pub register : List (Str × Watching) → List Str → Registered
register [] stops = watching stops
register ((n, unwatched) ∷ ss) stops = register ss stops
register ((n, watched stop none) ∷ ss) stops = register ss (if stop then n ∷ stops else stops)
register ((n, watched stop (some e)) ∷ ss) stops =
    undone (source_error n watch e) (if stop then n ∷ stops else stops)

-- errors.As(err, &held): the DegradedError within an error, along Unwrap.
unfoldable pub held_in : Error → Option Error
held_in (degraded d e) = some (degraded d e)
held_in (source_error n g e) = held_in e
held_in (named_fault s e) = held_in e
held_in (public e) = held_in e
held_in (bake_failed e) = held_in e
held_in (joined e f) = let later = held_in f in elim (held_in e) [ some h ↦ some h | none ↦ later ]
held_in _ = none

-- What wakes the wait: the end of the context, or an invalidation. Then the next build has a
-- result, after which the context may be done.
pub data Wake (Snap : Type 0) : Type 0 where
  cancelled : Error → Wake Snap
  rebuilt : Option Error → Result Snap → Wake Snap

-- `waiting` is the wait that has not ended yet.
pub data Start (Snap : Type 0) : Type 0 where
  waiting : Start Snap
  started : Snap → Start Snap
  failed : Error → Start Snap

-- A build that is blocked only by degraded sources.
abbrev pub IsHeld : Error → Type 0
IsHeld x = (h : Error) × (held_in x ≡ some h)

module _ {Baked Validation Report : Type 0} where
  -- After the loop, where `gone` is ctx.Err().
  unfoldable pub settle :
      Option Error
      → Option Error
      → Result (Snapshot Baked Validation Report)
      → Start (Snapshot Baked Validation Report)
  settle (some h) (some e) r = failed (joined h e)
  settle held late (err x) = failed x
  settle none (some e) (ok s) = failed e
  settle held none (ok s) = started (record s { version = 1 })

  -- The loop, from the result of the first build: `held` is the last DegradedError found.
  unfoldable pub hold :
      Option Error
      → Option Error
      → Result (Snapshot Baked Validation Report)
      → List (Wake (Snapshot Baked Validation Report))
      → Start (Snapshot Baked Validation Report)
  unfolding settle
  hold held gone (ok s) ws = settle held gone (ok s)
  hold held gone (err x) [] = elim (held_in x) [
    | none ↦ settle held gone (err x)
    | some h ↦ elim gone [ some e ↦ settle (some h) (some e) (err x) | none ↦ waiting ]
  ]
  hold held gone (err x) (cancelled c ∷ ws) = elim (held_in x) [
    | none ↦ settle held gone (err x)
    | some h ↦ elim gone [
      | some e ↦ settle (some h) (some e) (err x)
      | none ↦ settle (some h) (some c) (err x)
    ]
  ]
  hold held gone (err x) (rebuilt after r ∷ ws) = elim (held_in x) [
    | none ↦ settle held gone (err x)
    | some h ↦ elim gone [
      | some e ↦ settle (some h) (some e) (err x)
      | none ↦ hold (some h) after r ws
    ]
  ]

  -- The next turn of the loop.
  hold-rebuilt :
      (held : Option Error) (x h : Error) (after : Option Error)
      (r : Result (Snapshot Baked Validation Report))
      (ws : List (Wake (Snapshot Baked Validation Report)))
      → held_in x ≡ some h
      → hold held none (err x) (rebuilt after r ∷ ws) ≡ hold (some h) after r ws
  unfolding hold
  hold-rebuilt held x h after r ws e = rw (e, hold) refl

  hold-fatal :
      (h x : Error) (ws : List (Wake (Snapshot Baked Validation Report)))
      → held_in x ≡ none
      → hold (some h) none (err x) ws ≡ failed x
  unfolding hold settle
  hold-fatal h x [] e = rw (e, hold) refl
  hold-fatal h x (cancelled c ∷ ws) e = rw (e, hold) refl
  hold-fatal h x (rebuilt after r ∷ ws) e = rw (e, hold) refl

  -- However many builds are held up by degraded sources, the first one that succeeds while the
  -- context lives starts the runtime with its snapshot as version 1; and one that fails for another
  -- reason ends the wait with its error.
  pub hold-recovers :
      (held : Option Error) (x : Error) (xs : List Error) (s : Snapshot Baked Validation Report)
      (fatal : Error) (ws : List (Wake (Snapshot Baked Validation Report)))
      → IsHeld x
      → All IsHeld xs
      → held_in fatal ≡ none
      → (hold held none (err x) (map (λ y. rebuilt none (err y)) xs ++ rebuilt none (ok s) ∷ ws)
          ≡ started (record s { version = 1 }))
        × (hold held none
              (err x)
              (map (λ y. rebuilt none (err y)) xs ++ rebuilt none (err fatal) ∷ ws)
            ≡ failed fatal)
  unfolding hold settle
  hold-recovers held x [] s fatal ws (h, e) hs fails = (
    hold-rebuilt held x h none (ok s) ws e,
    hold-rebuilt held x h none (err fatal) ws e ∙ hold-fatal h fatal ws fails,
  )
  hold-recovers held x (y ∷ xs) s fatal ws (h, e) (held_y, hs) fails =
      let rest = hold-recovers (some h) y xs s fatal ws held_y hs fails in
      (
        hold-rebuilt held x h none (err y)
              (map (λ z. rebuilt none (err z)) xs ++ rebuilt none (ok s) ∷ ws) e
            ∙ rest.0,
        hold-rebuilt held x h none (err y)
              (map (λ z. rebuilt none (err z)) xs ++ rebuilt none (err fatal) ∷ ws) e
            ∙ rest.1,
      )

-- No source fails to be watched; it may be no Watcher, and a Watcher may have no stop function.
abbrev IsWatchable : Str × Watching → Type 0
IsWatchable (n, unwatched) = Unit
IsWatchable (n, watched stop none) = Unit
IsWatchable (n, watched stop (some e)) = ⊥

-- The names of those with a stop function, in the order of the sources.
abbrev stoppable : List (Str × Watching) → List Str
stoppable [] = []
stoppable ((n, watched true e) ∷ ss) = n ∷ stoppable ss
stoppable ((n, watched false e) ∷ ss) = stoppable ss
stoppable ((n, unwatched) ∷ ss) = stoppable ss

module _ (n : Str) (stop : Bool) (e : Error) (rest : List (Str × Watching)) where
  abbrev own_stop : List Str
  own_stop = if stop then n ∷ [] else []

  register_from :
      (ss : List (Str × Watching)) (stops : List Str)
      → All IsWatchable ss
      → register (ss ++ (n, watched stop (some e)) ∷ rest) stops
        ≡ undone (source_error n watch e) (own_stop ++ (reverse (stoppable ss) ++ stops))
  unfolding register
  register_from [] stops h =
      ap (undone (source_error n watch e))
        (elim stop
          as (λ b. (if b then n ∷ stops else stops) ≡ (if b then n ∷ [] else []) ++ stops) [
            | true ↦ refl
            | false ↦ refl
          ])
  register_from ((m, unwatched) ∷ ss) stops h = register_from ss stops h.1
  register_from ((m, watched false none) ∷ ss) stops h = register_from ss stops h.1
  register_from ((m, watched true none) ∷ ss) stops h =
      register_from ss (m ∷ stops) h.1
      ∙ ap (λ x. undone (source_error n watch e) (own_stop ++ x))
          (sym (
            ap (λ x. x ++ stops) (reverse-cons m (stoppable ss))
            ∙ append_assoc (reverse (stoppable ss)) (m ∷ []) stops))
  register_from ((m, watched b (some x)) ∷ ss) stops h = absurd h.0

  -- When a source cannot be watched, opening fails with an error that names it. Its own stop function,
  -- if it came with one, is called, and then those of the sources before it, the last one first; sources
  -- that are no Watcher or have no stop function are passed over.
  pub register-undone :
      (ss : List (Str × Watching))
      → All IsWatchable ss
      → register (ss ++ (n, watched stop (some e)) ∷ rest) []
        ≡ undone (source_error n watch e) ((if stop then n ∷ [] else []) ++ reverse (stoppable ss))
  register-undone ss h =
      register_from ss [] h
      ∙ ap (λ x. undone (source_error n watch e) (own_stop ++ x))
          (append-nil (reverse (stoppable ss)))
