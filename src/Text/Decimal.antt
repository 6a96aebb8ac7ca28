-- ===== src/Text/Decimal.antt =====
-- `strconv.Itoa` of an index and `strconv.FormatUint(n, 10)`.
use xconf.Prelude.{ℕ, zero, suc, ◌+◌, ◌/◌, ◌%◌, [], ◌∷◌, ltb, if◌then◌else◌}
use xconf.Text.{Str}

-- A number has at most as many digits as its successor, so the fuel that `itoa` gives suffices.
unfoldable pub decimal : ℕ → ℕ → Str → Str
decimal zero n acc = acc
decimal (suc fuel) n acc =
    let more = decimal fuel (n / 10) ((b'0' + n % 10) ∷ acc) in
    if ltb n 10 then (b'0' + n) ∷ acc else more

unfoldable pub itoa : ℕ → Str
unfolding decimal
itoa n = decimal (suc n) n []
