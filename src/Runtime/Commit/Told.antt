-- ===== src/Runtime/Commit/Told.antt =====
-- What a reload tells the subscribers.
use xconf.Prelude.{◌≡◌, refl, inl, inr, ◌⊎◌, ◌||◌, some, List, [], ◌∷◌, Bool-cases, All}
use xconf.Error.{Result, ok, err}
use xconf.Loader.{Snapshot}
use xconf.Runtime.{Event, Channel, Runtime, publish}
use xconf.Runtime.Changes.Laws.{Differs, changed_paths-Differs}
use xconf.Runtime.Commit.{Comparison, is_unchanged, commit}

module _ {Snap : Type 0} (P : Event Snap → Type 0) where
  -- An event with the property waits in each channel.
  abbrev pub AllFind : List (Channel Snap) → Type 0
  AllFind = All (λ ch. (e : Event Snap) × (ch.slot ≡ some e) × P e)

  publish-AllFind : (e : Event Snap) (chs : List (Channel Snap)) → P e → AllFind (publish e chs)
  unfolding publish
  publish-AllFind e [] h = tt
  publish-AllFind e (ch ∷ chs) h = ((e, refl, h), publish-AllFind e chs h)

module _ {Baked Validation Report V : Type 0} (c : Comparison Baked Validation V)
    (r : Runtime (Snapshot Baked Validation Report)) where
  -- The event has the snapshot, and each path in it leads to a difference between the values that were
  -- current before and those of the snapshot.
  abbrev pub IsNews :
      Snapshot Baked Validation Report → Event (Snapshot Baked Validation Report) → Type 0
  IsNews s e =
      (e.snapshot ≡ s)
      × All (λ p. Differs c.tree p [] (some (c.values r.current.baked)) (some (c.values s.baked)))
          e.changed

  -- Whatever a build gave, a reload leaves the runtime as it is, or each subscriber finds an event
  -- with the snapshot that is then current, in which every path leads to a difference between the values
  -- before the reload and after it.
  pub commit-IsNews :
      (built : Result (Snapshot Baked Validation Report))
      → let q = (commit c r built).0 in (q ≡ r) ⊎ AllFind (IsNews q.current) q.subscribers
  unfolding commit
  commit-IsNews (err e) = elim (Bool-cases (r.closed || r.cancelled)) [
    | inl off ↦ rw off (inl refl)
    | inr on ↦ rw on (inr (publish-AllFind (IsNews r.current) _ r.subscribers (refl, tt)))
  ]
  commit-IsNews (ok s) = elim (Bool-cases (r.closed || r.cancelled)) [
    | inl off ↦ rw off (inl refl)
    | inr on ↦ elim (Bool-cases (is_unchanged c r.current s)) [
      | inl eq ↦ elim (Bool-cases r.failed) [
        | inl recovered ↦
            rw (on, eq, recovered)
              (inr (publish-AllFind (IsNews r.current) _ r.subscribers (refl, tt)))
        | inr healthy ↦ rw (on, eq, healthy) (inl refl)
      ]
      | inr new ↦
          rw (on, new)
            (inr (
              publish-AllFind (IsNews _) _ r.subscribers (
                refl,
                changed_paths-Differs c.tree (c.depth (c.values r.current.baked))
                    (c.values r.current.baked) (c.values s.baked),
              )))
    ]
  ]
