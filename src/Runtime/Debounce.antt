-- ===== src/Runtime/Debounce.antt =====
-- `invalidate` and the loop of `run` in runtime.go, as they share the channel `dirty` of one slot.
pub mod Laws
use xconf.Prelude.{Bool, true, false, List, [], ◌∷◌}

-- Where the loop is: at its select, at the one with the timer, before the third one, in Reload, or
-- returned.
pub data Phase : Type 0 where
  listening pausing draining reloading left : Phase

-- The phase, and whether the slot of `dirty` is filled.
pub data State : Type 0 where
  at : Phase → Bool → State

-- Someone calls invalidate; the loop receives from `dirty`; its timer fires; it empties the slot and calls
-- Reload; Reload returns; the loop receives from ctx.Done().
pub data Event : Type 0 where
  invalidated received fired drained reloaded cancelled : Event

-- What an event does, and whether the loop then calls Reload; an event that the loop does not wait for
-- cannot happen, and changes nothing.
unfoldable pub step : Event → State → State × Bool
step invalidated (at phase dirty) = (at phase true, false)
step received (at listening true) = (at pausing false, false)
step fired (at pausing dirty) = (at draining dirty, false)
step drained (at draining dirty) = (at reloading false, true)
step reloaded (at reloading dirty) = (at listening dirty, false)
step cancelled (at listening dirty) = (at left dirty, false)
step cancelled (at pausing dirty) = (at left dirty, false)
step e s = (s, false)

unfoldable pub run : List Event → State → State
unfolding step
run [] s = s
run (e ∷ es) s = run es (step e s).0

-- The loop as openLoader starts it.
abbrev pub start : State
start = at listening false
