-- ===== src/Runtime.antt =====
-- `Runtime` of runtime.go: the current snapshot, its subscribers, and what `Reload` does with the
-- result of a build.
pub mod Same
pub mod Commit
pub mod Steps
pub mod Open
pub mod Changes
pub mod Debounce
use xconf.Prelude.{
  ℕ, suc, ◌+◌, ◌%◌, ◌^◌, Bool, true, false, ◌||◌, Option, none, some, List, [], ◌∷◌, ◌++◌, map,
  ◌==◌, if◌then◌else◌,
}
use xconf.Pointer.{FieldPath}
use xconf.Error.{Error, Result, ok, err, closed as closed_error, with_degraded, ◌>>=◌}
use xconf.Loader.{Snapshot}

-- Event: `error` is none for a nil error.
pub record Event (Snap : Type 0) : Type 0 where
  pub snapshot : Snap
  pub error : Option Error
  pub changed : List FieldPath

-- A subscriber's channel, by its number, and the event that its one slot holds.
pub record Channel (Snap : Type 0) : Type 0 where
  pub id : ℕ
  pub slot : Option (Event Snap)

-- `cancelled` tells whether the context of the runtime is done, `held` whether a reload holds the
-- gate. The channels that are closed are in `ended`: what waits in one can still be received.
pub record Runtime (Snap : Type 0) : Type 0 where
  pub current : Snap
  pub subscribers : List (Channel Snap)
  pub ended : List (Channel Snap)
  pub closed : Bool
  pub failed : Bool
  pub cancelled : Bool
  pub held : Bool

module _ {Snap : Type 0} where
  -- publish: the slot is emptied, and filled with a copy of the event.
  unfoldable pub publish : Event Snap → List (Channel Snap) → List (Channel Snap)
  publish e [] = []
  publish e (ch ∷ chs) = record ch { slot = some e } ∷ publish e chs

  -- The other channels, and those with the number.
  unfoldable pub without : ℕ → List (Channel Snap) → List (Channel Snap)
  without n [] = []
  without n (ch ∷ chs) = let rest = without n chs in if ch.id == n then rest else ch ∷ rest

  unfoldable pub numbered : ℕ → List (Channel Snap) → List (Channel Snap)
  numbered n [] = []
  numbered n (ch ∷ chs) = let rest = numbered n chs in if ch.id == n then ch ∷ rest else rest

  -- The goroutine of Subscribe: the channel is no longer told of events, and closed.
  unfoldable pub unsubscribe : ℕ → Runtime Snap → Runtime Snap
  unfolding without numbered
  unsubscribe n r = record r {
    subscribers = without n r.subscribers;
    ended = numbered n r.subscribers ++ r.ended;
  }

  unfoldable pub emptied : ℕ → List (Channel Snap) → List (Channel Snap)
  emptied n [] = []
  emptied n (ch ∷ chs) = (if ch.id == n then record ch { slot = none } else ch) ∷ emptied n chs

  -- The reader of a channel, closed or not, receives what waits in it.
  unfoldable pub receive : ℕ → Runtime Snap → Runtime Snap
  unfolding emptied
  receive n r = record r { subscribers = emptied n r.subscribers; ended = emptied n r.ended }

  -- Subscribe, where `done` tells whether the subscriber's context is: the current snapshot is
  -- delivered at once, or the channel is closed.
  unfoldable pub subscribe : ℕ → Bool → Runtime Snap → Runtime Snap
  subscribe n done r =
      if r.closed || r.cancelled || done
      then record r { ended = record { id = n; slot = none } ∷ r.ended }
      else record r {
        subscribers =
            record {
              id = n;
              slot = some (record { snapshot = r.current; error = none; changed = [] });
            }
            ∷ r.subscribers;
      }

  -- What `run` does when it returns.
  unfoldable pub shut_down : Runtime Snap → Runtime Snap
  shut_down r = record r { closed = true; subscribers = []; ended = r.subscribers ++ r.ended }

-- build: a load, and the check of a typed runtime.
unfoldable pub build :
    {Baked Validation Report : Type 0}
    → (Snapshot Baked Validation Report → Option Error)
    → Result (Snapshot Baked Validation Report)
    → Result (Snapshot Baked Validation Report)
unfolding with_degraded
build check loaded =
    loaded >>= λ s. elim (check s) [ none ↦ ok s | some e ↦ err (with_degraded e s.degraded) ]
