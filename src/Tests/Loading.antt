-- ===== src/Tests/Loading.antt =====
-- A load of one source, and the runtime over its snapshot.
use xconf.Prelude.{
  Option, ℕ, ◌≡◌, ◌⊎◌, ◌≤◌, ◌↔◌, refl, Bool, true, false, none, some, List, [], ◌∷◌, map, ◌==◌, All,
}
use xconf.Text.{str}
use xconf.Error.{
  Error, Yields, Result, ok, err, external, healthy, degraded, stale, validation, source_error,
  watch,
}
use xconf.Runtime.Open.{
  Start, rebuilt, started, failed, unwatched, watched, undone, held_in, hold, register,
  hold-recovers, register-undone,
}
use xconf.Value.{Fields}
use xconf.Layer.{no_layer}
use xconf.Loader.{Source, Engine, Snapshot, bind, load}
use xconf.Loader.Sources.{IsBindable, bind_iff}
use xconf.Loader.Noted.{Told, load-Told}
use xconf.Runtime.{Runtime, subscribe, unsubscribe}
use xconf.Runtime.Commit.{Comparison, commit}
use xconf.Runtime.Commit.Told.{AllFind, IsNews, commit-IsNews}
use xconf.Runtime.Debounce as Debounce
use xconf.Runtime.Debounce.Laws.{owed, IsPending, reloads, calls, run-IsPending}
use xconf.Runtime.Steps.{Steps, opened, join, leave, none_yet, then_one}
use xconf.Runtime.Steps.Laws.{IsValid, WasCurrent, opened-IsValid}
use xconf.Text.Dict.{Dict}
use xconf.Runtime.Changes.{Tree, changed_paths}
use xconf.Runtime.Changes.Laws.{Differs, changed_paths-Differs}
use xconf.Tests.{getters, lower}

abbrev engine : Engine Fields (Unit {0}) (Unit {0})
engine = record { bake = λ m. ok (m, tt, tt); blocking = λ v. false; events = λ r. [] }

abbrev file : Source ℕ
file = record {
  name = str "file";
  read = λ s. ok (record no_layer { values = some lower; stale = some (external 1) });
}

file-IsBindable : IsBindable [] (file ∷ [])
file-IsBindable = (λ e. cc, tt, tt)

bind_iff_example :
    (bind (some file ∷ []) ≡ ok (file ∷ []))
    ↔ ((some file ∷ [] ≡ map some (file ∷ [])) × IsBindable [] (file ∷ []))
bind_iff_example = bind_iff (some file ∷ []) (file ∷ [])

load-Told_example :
    Yields
      (λ snap. All (Told getters engine 0 snap) (file ∷ []))
      (load getters engine 0 (λ n. none) 5 (file ∷ []))
load-Told_example = load-Told getters engine 0 (λ n. none) 5 (file ∷ []) file-IsBindable

abbrev Snap : Type 0
Snap = Snapshot ℕ (Unit {0}) (Unit {0})

abbrev snap : ℕ → Snap
snap now = record {
  baked = now;
  validation = tt;
  report = tt;
  origins = [];
  revisions = [];
  degraded = healthy;
  version = 1;
  loaded_at = now;
}

-- Baked configurations that are numbers.
abbrev comparison : Comparison ℕ (Unit {0}) ℕ
comparison = record {
  tree = record { equal = λ a b. a == b; fields = λ v. none; items = λ v. none };
  values = λ b. b;
  depth = λ v. 0;
  same_validation = λ a b. true;
}

abbrev running : Runtime Snap
running = record {
  current = snap 1;
  subscribers = record { id = 0; slot = none } ∷ [];
  ended = [];
  closed = false;
  failed = false;
  cancelled = false;
  held = false;
}

-- Another number is a change of the whole.
commit-IsNews_example :
    let q = (commit comparison running (ok (snap 2))).0 in
    (q ≡ running) ⊎ AllFind (IsNews comparison running q.current) q.subscribers
commit-IsNews_example = commit-IsNews comparison running (ok (snap 2))

-- A subscriber joins and leaves.
abbrev joined : Runtime Snap
joined = subscribe 7 false (opened (snap 1))

abbrev parted : Runtime Snap
parted = unsubscribe 7 joined

abbrev parting : Steps comparison (opened (snap 1)) parted
parting = then_one (then_one none_yet (join 7 false refl)) (leave 7 refl)

opened-IsValid_example : IsValid (WasCurrent comparison parting) parted
opened-IsValid_example = opened-IsValid comparison (snap 1) parted parting

-- The event of a channel that was closed can still be received.
parted_events :
    parted.ended
    ≡ record { id = 7; slot = some (record { snapshot = snap 1; error = none; changed = [] }) } ∷ []
unfolding opened subscribe unsubscribe
parted_events = refl

abbrev blocked : Error
blocked = degraded (stale (str "file") (external 1) healthy) validation

-- A wait for builds of these snapshots.
abbrev wait_for : Result Snap → Start Snap
wait_for last = hold none none (err blocked) (rebuilt none (err blocked) ∷ rebuilt none last ∷ [])

hold-recovers_example :
    (wait_for (ok (snap 3)) ≡ started (record (snap 3) { version = 1 }))
    × (wait_for (err validation) ≡ failed validation)
unfolding held_in
hold-recovers_example =
    hold-recovers none blocked (blocked ∷ []) (snap 3) validation [] (blocked, refl)
      ((blocked, refl), tt) refl

-- A source that is no Watcher stands between two that are.
register-undone_example :
    register
      ((str "a", watched true none)
        ∷ (str "m", unwatched)
        ∷ (str "c", watched true none)
        ∷ (str "b", watched true (some (external 1)))
        ∷ [])
      []
    ≡ undone (source_error (str "b") watch (external 1)) (str "b" ∷ str "c" ∷ str "a" ∷ [])
register-undone_example =
    register-undone (str "b") true (external 1) []
      ((str "a", watched true none) ∷ (str "m", unwatched) ∷ (str "c", watched true none) ∷ [])
      (tt, (tt, (tt, tt)))

-- Leaves with numbers, and a struct with one member `file`.
data Leaf : Type 0 where
  leaf : ℕ → Leaf
  file_of : ℕ → Leaf

abbrev leaf_equal : Leaf → Leaf → Bool
leaf_equal (leaf m) (leaf n) = m == n
leaf_equal (file_of m) (file_of n) = m == n
leaf_equal _ _ = false

abbrev leaf_fields : Leaf → Option (Dict Leaf)
leaf_fields (leaf n) = none
leaf_fields (file_of n) = some ((str "file", leaf n) ∷ [])

abbrev leaves : Tree Leaf
leaves = record { equal = leaf_equal; fields = leaf_fields; items = λ v. none }

changed_paths-Differs_example :
    All
      (λ q. Differs leaves q [] (some (file_of 1)) (some (file_of 2)))
      (changed_paths leaves 2 (file_of 1) (file_of 2))
changed_paths-Differs_example = changed_paths-Differs leaves 2 (file_of 1) (file_of 2)

-- An invalidation while a reload runs fills the slot again.
abbrev happenings : List Debounce.Event
happenings =
    Debounce.invalidated ∷ Debounce.received ∷ Debounce.invalidated ∷ Debounce.fired
    ∷ Debounce.drained ∷ Debounce.invalidated ∷ []

run-IsPending_example :
    ((owed happenings Debounce.start false ≡ false)
      ⊎ IsPending (Debounce.run happenings Debounce.start))
    × (reloads happenings Debounce.start ≤ calls happenings)
run-IsPending_example = run-IsPending happenings
