-- ===== src/Sources/Poll.antt =====
-- `Poll` of sources.go: its Watch and the goroutine that it starts.
use xconf.Prelude.{ℕ, suc, ◌==◌, List, [], ◌∷◌, if◌then◌else◌}
use xconf.Error.{Result, ok, err, poll_interval}
use xconf.Adapters.Numbers.{positive}

-- What one turn of the loop receives.
pub data Received : Type 0 where
  done tick : Received

-- Watch up to the start of the goroutine. The interval is an int64, by its bits.
unfoldable pub watch : ℕ → Result (Unit {0})
watch interval = if positive interval then ok (tt {0}) else err poll_interval

-- The calls of notify in the turns that the loop takes: after the end of the context there are none.
unfoldable pub notifications : List Received → ℕ
notifications [] = 0
notifications (done ∷ rs) = 0
notifications (tick ∷ rs) = suc (notifications rs)

-- The Watch of a source that polls unless its interval is 0: the calls of notify, or the error of Poll.
unfoldable pub watch_unless_zero : ℕ → List Received → Result ℕ
unfolding watch notifications
watch_unless_zero interval rs =
    if interval == 0
    then ok 0
    else elim (watch interval) [ err e ↦ err e | ok _ ↦ ok (notifications rs) ]
