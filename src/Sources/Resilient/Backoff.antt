-- ===== src/Sources/Resilient/Backoff.antt =====
-- The loop of `resilient.Watch`: registering with the source, sleeping while it is healthy, and
-- retrying with growing delays while it is not. A time.Duration is an int64, here by its bit
-- pattern.
use xconf.Prelude.{
  ℕ, ◌+◌, ◌*◌, ◌%◌, ◌^◌, ◌≤◌, ◌<◌, ◌≡◌, Bool, true, false, ◌&&◌, not, arith, ltb, if◌then◌else◌,
}

-- `lo` and `hi` bound the delay.
pub record Loop : Type 0 where
  pub lo : ℕ
  pub hi : ℕ
  pub delay : ℕ
  pub unregistered : Bool

abbrev pub signed_less : ℕ → ℕ → Bool
signed_less a b = ltb ((a + 2 ^ 63) % 2 ^ 64) ((b + 2 ^ 63) % 2 ^ 64)

-- Watch refuses bounds that are not 0 < min <= max.
unfoldable pub valid_bounds : ℕ → ℕ → Bool
valid_bounds lo hi = signed_less 0 lo && not (signed_less hi lo)

-- min(delay*2, hi)
unfoldable pub double : ℕ → ℕ → ℕ
double delay hi = if signed_less (delay * 2 % 2 ^ 64) hi then delay * 2 % 2 ^ 64 else hi

-- What an iteration does before the next one: it invalidates at once, sleeps until a read fails, or
-- waits for a delay and then perhaps invalidates.
pub data Action : Type 0 where
  notify_now : Action
  sleep : Action
  wait : ℕ → Bool → Action

-- One iteration, where `registers` is whether a registration succeeds now, and `stale` whether the
-- last read failed.
unfoldable pub iterate : Bool → Bool → Loop → Loop × Action
iterate registers stale w =
    if w.unregistered
    then (if registers
        then (record w { unregistered = false; delay = w.lo }, notify_now)
        else (record w { delay = double w.delay w.hi }, wait w.delay false))
    else if stale
    then (record w { delay = double w.delay w.hi }, wait w.delay true)
    else (record w { delay = w.lo }, sleep)

-- The delay stays within the bounds, which are positive and below 2^62 nanoseconds, some 146 years.
pub record IsBounded (w : Loop) : Type 0 where
  pub positive : 0 < w.lo
  pub ordered : w.lo ≤ w.hi
  pub small : w.hi < 2 ^ 62
  pub above : w.lo ≤ w.delay
  pub below : w.delay ≤ w.hi

double_small :
    (d hi : ℕ) → d ≤ hi → hi < 2 ^ 62 → double d hi ≡ (if ltb (d * 2) hi then d * 2 else hi)
unfolding double
double_small d hi h small = ground arith

-- Every iteration keeps the delay within the bounds.
pub iterate-IsBounded :
    (registers stale : Bool) (w : Loop) → IsBounded w → IsBounded (iterate registers stale w).0
unfolding iterate
iterate-IsBounded registers stale w v = ground (
  arith,
  v.positive,
  v.ordered,
  v.small,
  v.above,
  v.below,
  double_small w.delay w.hi v.below v.small,
)
