-- ===== src/Adapters/Numbers.antt =====
-- The tests on an int64 by its bit pattern, and the budget of bytes that several values share.
use xconf.Prelude.{ℕ, ◌-◌, ◌*◌, ◌^◌, Bool, ◌&&◌, not, ◌==◌, ltb, Option, none, some, if◌then◌else◌}

-- document.DefaultMaxBytes
abbrev pub default_max_bytes : ℕ
default_max_bytes = 8 * 2 ^ 20

-- time.Second and time.Millisecond, in nanoseconds
abbrev pub second : ℕ
second = 10 ^ 9

abbrev pub millisecond : ℕ
millisecond = 10 ^ 6

-- n >= 0
abbrev pub nonnegative : ℕ → Bool
nonnegative n = ltb n (2 ^ 63)

-- n > 0
abbrev pub positive : ℕ → Bool
positive n = not (n == 0) && ltb n (2 ^ 63)

-- remaining -= int64(len(v)); remaining < 0. What remains is not negative before, so nothing wraps.
abbrev pub spend : ℕ → ℕ → Option ℕ
spend remaining size = if ltb remaining size then none else some (remaining - size)
