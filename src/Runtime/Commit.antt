-- ===== src/Runtime/Commit.antt =====
-- The end of `Reload`, under the mutex.
pub mod Laws
pub mod Told
use xconf.Prelude.{
  ℕ, suc, ◌+◌, ◌%◌, ◌^◌, ◌≡◌, ◌≢◌, refl, Bool, true, false, ◌||◌, Option, none, some, List, [], ◌∷◌,
  map, if◌then◌else◌, arith, ◌⊎◌, inl, inr,
}
use xconf.Pointer.{FieldPath}
use xconf.Error.{Error, Result, ok, err, closed as closed_error}
use xconf.Loader.{Snapshot}
use xconf.Runtime.Same.{same_snapshot}
use xconf.Runtime.Changes.{Tree, changed_paths}
use xconf.Runtime.{Event, Channel, Runtime, publish}

-- What the code asks of two results: the values of a baked configuration, how schemapb compares them, a
-- bound of their depth, and proto.Equal of two validations.
pub record Comparison (Baked Validation V : Type 0) : Type 0 where
  pub tree : Tree V
  pub values : Baked → V
  pub depth : V → ℕ
  pub same_validation : Validation → Validation → Bool

-- The new runtime, and what `Reload` returns beside the error.
abbrev pub Outcome : Type 0 → Type 0
Outcome Snap = Runtime Snap × Snap × Option Error

module _ {Baked Validation Report : Type 0} where
  -- The version is a uint64.
  abbrev pub next_version :
      Snapshot Baked Validation Report
      → Snapshot Baked Validation Report
      → Snapshot Baked Validation Report
  next_version old next = record next { version = (old.version + 1) % 2 ^ 64 }

module _ {Baked Validation Report V : Type 0} (c : Comparison Baked Validation V) where
  -- The test for a change.
  abbrev pub is_unchanged :
      Snapshot Baked Validation Report → Snapshot Baked Validation Report → Bool
  is_unchanged old next =
      same_snapshot (λ a b. c.tree.equal (c.values a) (c.values b)) c.same_validation old next

  abbrev pub changes_of :
      Snapshot Baked Validation Report → Snapshot Baked Validation Report → List FieldPath
  changes_of old next =
      changed_paths c.tree (c.depth (c.values old.baked)) (c.values old.baked) (c.values next.baked)

  unfoldable pub commit_ok :
      Runtime (Snapshot Baked Validation Report)
      → Snapshot Baked Validation Report
      → Outcome (Snapshot Baked Validation Report)
  unfolding publish same_snapshot changed_paths
  commit_ok r next =
      if is_unchanged r.current next
      then (
        if r.failed
            then record r {
              failed = false;
              subscribers =
                  publish (record { snapshot = r.current; error = none; changed = [] })
                    r.subscribers;
            }
            else r,
        r.current,
        none,
      )
      else (
        record r {
          failed = false;
          current = next_version r.current next;
          subscribers =
              publish
                (record {
                  snapshot = next_version r.current next;
                  error = none;
                  changed = changes_of r.current (next_version r.current next);
                })
                r.subscribers;
        },
        next_version r.current next,
        none,
      )

  unfoldable pub commit :
      Runtime (Snapshot Baked Validation Report)
      → Result (Snapshot Baked Validation Report)
      → Outcome (Snapshot Baked Validation Report)
  unfolding commit_ok publish
  commit r (err e) = if r.closed || r.cancelled then (r, r.current, some closed_error) else (
    record r {
      failed = true;
      subscribers =
          publish (record { snapshot = r.current; error = some e; changed = [] }) r.subscribers;
    },
    r.current,
    some e,
  )
  commit r (ok next) =
      if r.closed || r.cancelled then (r, r.current, some closed_error) else commit_ok r next
