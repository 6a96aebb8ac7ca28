-- ===== src/Adapters/Consul/Watch.antt =====
-- The goroutine of Watch in contrib/sources/consul/consul.go.
pub mod Laws
use xconf.Prelude.{
  ℕ, ◌≤◌, ◌≡◌, ◌≢◌, refl, Bool, true, false, ◌||◌, not, ◌==◌, Option, none, some, List, [], ◌∷◌,
  ltb, arith, if◌then◌else◌,
}
use xconf.Error.{Error, Result, ok, err, ◌>>=◌, fault, consul_settings}
use xconf.Adapters.Watch.{Action, notify, shortest, longest, longer}
use xconf.Adapters.Consul.{Source, Match, Reply, Meta, valid, get}

-- The index of the next query, the pause after a failure, and whether the last query failed; or the end.
pub data State : Type 0 where
  asking : ℕ → ℕ → Bool → State
  ended : State

-- What one turn meets: the error of limiter.Wait, the answer with ctx.Err() for get, ctx.Err() of the
-- goroutine after it, and whether the context ends in the pause.
pub record Round : Type 0 where
  pub limited : Option Error
  pub reply : Reply
  pub late : Option Error
  pub cancelled : Bool
  pub left : Bool

-- max(meta.LastIndex, 1)
abbrev pub next_index : ℕ → ℕ
next_index n = if n == 0 then 1 else n

-- A query that failed is told; then comes the pause.
unfoldable pub after_failure : Bool → ℕ → ℕ → State × List Action
after_failure true index b = (ended, notify ∷ [])
after_failure false index b = (asking index (longer b) true, notify ∷ [])

-- A query that succeeded, with the LastIndex: one that went back starts anew.
unfoldable pub after_reply : ℕ → ℕ → Bool → State × List Action
after_reply last index failed = (
  asking (if ltb (next_index last) index then 0 else next_index last) shortest false,
  if failed || not (last == index) then notify ∷ [] else [],
)

unfoldable pub queried : Result Meta → Bool → Bool → ℕ → ℕ → Bool → State × List Action
unfolding after_failure after_reply
queried got true left index b failed = (ended, [])
queried (err e) false left index b failed = after_failure left index b
queried (ok meta) false left index b failed = after_reply meta.last_index index failed

-- The metadata of a query.
unfoldable pub query : ℕ → Round → Result Meta
unfolding get
query limit r = get r.reply r.late limit >>= λ got. ok got.1

-- One turn of the loop, where `limit` is the one of the source.
unfoldable pub turn : ℕ → Round → State → State × List Action
unfolding query queried
turn limit r ended = (ended, [])
turn limit r (asking index b failed) = elim r.limited [
  | some e ↦ (ended, [])
  | none ↦ queried (query limit r) r.cancelled r.left index b failed
]

-- Watch up to the start of the goroutine: no state where watching is turned off by a wait of zero.
unfoldable pub watch : Match → Reply → Option Error → Source → Result (Option State)
unfolding valid get
watch matches reply late s =
    if not (valid matches s)
    then err (fault consul_settings)
    else if s.wait == 0
    then ok none
    else (get reply late s.limit >>= λ got.
        ok (some (asking (next_index got.1.last_index) shortest false)))
