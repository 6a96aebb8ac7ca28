-- ===== src/Adapters/Nats.antt =====
-- `Source` of contrib/sources/nats/nats.go: its Read, and the goroutine of its Watch.
pub mod Options
pub mod Laws
use xconf.Prelude.{
  ℕ, Bool, true, false, ◌&&◌, ◌||◌, not, ◌==◌, Option, none, some, List, [], ◌∷◌, ◌++◌, is_some,
  length, ltb, if◌then◌else◌,
}
use xconf.Text.{Str, str, str_eq}
use xconf.Error.{
  Error, Result, ok, err, ◌>>=◌, alive, not_found, too_large, fault, nats_settings, nats_response,
  nil_watcher,
}
use xconf.Layer.{Layer}
use xconf.Document.{Decoder, decode}
use xconf.Adapters.Numbers.{positive, nonnegative}
use xconf.Adapters.Watch.{Action, notify, stop, State, serving, waiting, ended, shortest, longer}

-- A KeyValueEntry: whether its Operation() is KeyValuePut, its Value() and its Revision().
pub record Entry : Type 0 where
  pub put : Bool
  pub value : Str
  pub revision : ℕ

-- `bucket` tells whether the bucket is not nil. Durations and the limit are int64, by their bits.
pub record Source : Type 0 where
  pub bucket : Bool
  pub key : Str
  pub id : Str
  pub decoder : Option Decoder
  pub limit : ℕ
  pub timeout : ℕ
  pub interval : ℕ

-- The characters of "*> \t\r\n"
abbrev wild : ℕ → Bool
wild c = c == b'*' || c == b'>' || c == b' ' || c == 9 || c == 13 || c == 10

-- strings.ContainsAny(key, "*> \t\r\n"); all of the characters are ASCII.
unfoldable pub any_wild : Str → Bool
any_wild [] = false
any_wild (c ∷ s) = wild c || any_wild s

unfoldable pub valid : Source → Bool
unfolding str_eq any_wild
valid s =
    s.bucket
    && not (str_eq s.key [])
    && not (any_wild s.key)
    && is_some s.decoder
    && positive s.limit
    && positive s.timeout
    && nonnegative s.interval

-- What the bucket answers: that the key is not found or deleted, another error, or an entry, none if
-- it is nil.
pub data Reply : Type 0 where
  absent : Reply
  refused : Error → Reply
  entry : Option Entry → Reply

-- Read, where `format` is strconv.FormatUint in base ten and `late` what ctx.Err() returns.
unfoldable pub read : (ℕ → Str) → (Str → Str) → Reply → Option Error → Source → Result Layer
unfolding valid decode
read format digest reply late s = if not (valid s) then err (fault nats_settings) else (elim reply [
  | absent ↦ err not_found
  | refused e ↦ err e
  | entry o ↦ elim o [
    | none ↦ err (fault nats_response)
    | some kv ↦
        if not kv.put
        then err not_found
        else if ltb s.limit (length kv.value)
        then err too_large
        else (alive late >>= λ living. decode digest kv.value s.decoder s.id (format kv.revision))
  ]
])

-- What the two selects of one turn receive. A timer that fires comes with what bucket.Watch returns
-- then, an error and a watcher by its number, none for nil; an update is whether the channel is open, and whether the entry is not nil. Ticks come only
-- where the interval is positive.
pub data Waited : Type 0 where
  done : Waited
  fired : Option Error → Option ℕ → Waited

pub data Served : Type 0 where
  done tick : Served
  update : Bool → Bool → Served

pub record Round : Type 0 where
  pub waited : Waited
  pub served : Served

-- The second select. `stop` is watcher.Stop(), which the deferred function calls too.
unfoldable pub serve : Served → ℕ → ℕ → State × List Action
serve done n b = (ended, stop n ∷ [])
serve tick n b = (serving n b, notify ∷ [])
serve (update live filled) n b =
    if not live
    then (waiting b, stop n ∷ notify ∷ [])
    else (serving n b, if filled then notify ∷ [] else [])

-- A watcher that came with an error is stopped.
abbrev pub dropped : Option ℕ → List Action
dropped none = []
dropped (some n) = stop n ∷ []

unfoldable pub restart : Option Error → Option ℕ → Served → ℕ → State × List Action
unfolding serve
restart (some e) watcher w b = (waiting (longer b), dropped watcher ++ notify ∷ [])
restart none none w b = (waiting (longer b), notify ∷ [])
restart none (some n) w b = let out = serve w n shortest in (out.0, notify ∷ out.1)

-- The first select, where the watcher is nil.
unfoldable pub resume : Waited → Served → ℕ → State × List Action
unfolding restart
resume done w b = (ended, [])
resume (fired failure watcher) w b = restart failure watcher w b

-- One turn of the loop of the goroutine.
unfoldable pub turn : Round → State → State × List Action
unfolding serve resume
turn r ended = (ended, [])
turn r (serving n b) = serve r.served n b
turn r (waiting b) = resume r.waited r.served b

-- Watch up to the start of the goroutine, with the watchers that it stopped.
unfoldable pub watch : Option Error → Option ℕ → Source → Result State × List Action
unfolding valid
watch failure watcher s = if not (valid s) then (err (fault nats_settings), []) else (elim failure [
  | some e ↦ (err e, dropped watcher)
  | none ↦ elim watcher [
    | none ↦ (err (fault nil_watcher), [])
    | some n ↦ (ok (serving n shortest), [])
  ]
])
