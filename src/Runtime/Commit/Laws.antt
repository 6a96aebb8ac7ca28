-- ===== src/Runtime/Commit/Laws.antt =====
-- What the reloads of a runtime leave, one after the other.
use xconf.Prelude.{ℕ, ◌≡◌, ◌⊎◌, Bool, true, false, ◌||◌, some, List, [], ◌∷◌, map, All}
use xconf.Error.{Error, Result}
use xconf.Loader.{Snapshot}
use xconf.Runtime.{Event, Channel, Runtime}
use xconf.Runtime.Commit.{Comparison, is_unchanged, commit}

abbrev is_failing : List Error → Bool
is_failing [] = false
is_failing (e ∷ es) = true

module _ {Snap : Type 0} where
  -- The event waits in the channel.
  abbrev Holds : Event Snap → Channel Snap → Type 0
  Holds e ch = ch.slot ≡ some e

  abbrev pub ids : List (Channel Snap) → List ℕ
  ids chs = map (λ ch. ch.id) chs

module _ {Baked Validation Report V : Type 0} (c : Comparison Baked Validation V) where
  -- The builds of a row of reloads, and what is left after them.
  unfoldable pub commits :
      List (Result (Snapshot Baked Validation Report))
      → Runtime (Snapshot Baked Validation Report)
      → Runtime (Snapshot Baked Validation Report)
  commits [] r = r
  commits (built ∷ more) r = commits more (commit c r built).0

  -- The same result as the build, or the build itself under a version.
  abbrev pub IsFrom : Snapshot Baked Validation Report → Snapshot Baked Validation Report → Type 0
  IsFrom s current =
      (is_unchanged c current s ≡ true) ⊎ ((v : ℕ) × (current ≡ record s { version = v }))

  -- What the subscribers are told at last.
  abbrev pub AllTold : List Error → Runtime (Snapshot Baked Validation Report) → Type 0
  AllTold [] r = Unit
  AllTold (e ∷ []) r =
      All (Holds (record { snapshot = r.current; error = some e; changed = [] })) r.subscribers
  AllTold (e ∷ f ∷ es) r = AllTold (f ∷ es) r

  module _ (r : Runtime (Snapshot Baked Validation Report)) where
    -- Neither closed nor cancelled.
    abbrev IsRunning : Type 0
    IsRunning = (r.closed || r.cancelled) ≡ false
