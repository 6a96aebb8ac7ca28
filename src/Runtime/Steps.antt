-- ===== src/Runtime/Steps.antt =====
-- The runtime under every interleaving of reloads, subscribers, cancellation and shutdown. A reload
-- holds the gate from before its build to its commit; everything else happens under the mutex.
pub mod Laws
use xconf.Prelude.{ℕ, suc, ◌+◌, ◌≡◌, Bool, true, false, Option, none, some, List, []}
use xconf.Pointer.{FieldPath}
use xconf.Error.{Error, Result}
use xconf.Loader.{Snapshot}
use xconf.Runtime.{Event, Channel, Runtime, publish, subscribe, unsubscribe, receive, shut_down}
use xconf.Runtime.Commit.{Comparison, commit}

-- `openLoader` starts the runtime with its first snapshot, as version 1.
unfoldable pub opened :
    {Baked Validation Report : Type 0}
    → Snapshot Baked Validation Report
    → Runtime (Snapshot Baked Validation Report)
opened s = record {
  current = record s { version = 1 };
  subscribers = [];
  ended = [];
  closed = false;
  failed = false;
  cancelled = false;
  held = false;
}

module _ {Baked Validation Report V : Type 0} (c : Comparison Baked Validation V) where
  -- `begin` and `finish` are the two ends of a reload with the gate; a reload that is cancelled
  -- before it has the gate, or finds the runtime cancelled, changes nothing. `shut` is the deferred
  -- function of `run`, which returns only when the context is done. A subscriber leaves by `leave`.
  pub data Step (r : Runtime (Snapshot Baked Validation Report))
      (q : Runtime (Snapshot Baked Validation Report)) : Type 0 where
    begin : r.held ≡ false → q ≡ record r { held = true } → Step r q
    finish :
        (built : Result (Snapshot Baked Validation Report))
        → r.held ≡ true
        → q ≡ record (commit c r built).0 { held = false }
        → Step r q
    join : (n : ℕ) (done : Bool) → q ≡ subscribe n done r → Step r q
    leave : (n : ℕ) → q ≡ unsubscribe n r → Step r q
    take : (n : ℕ) → q ≡ receive n r → Step r q
    cancel : q ≡ record r { cancelled = true } → Step r q
    shut : r.cancelled ≡ true → q ≡ shut_down r → Step r q

  pub data Steps (r : Runtime (Snapshot Baked Validation Report))
      : Runtime (Snapshot Baked Validation Report) → Type 0 where
    none_yet : Steps r r
    then_one : {q s : Runtime (Snapshot Baked Validation Report)} → Steps r q → Step q s → Steps r s
