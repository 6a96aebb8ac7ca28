-- ===== src/Adapters/Etcd.antt =====
-- `Source` of contrib/sources/etcd/etcd.go: its Read, and the goroutine of its Watch.
pub mod Options
pub mod Laws
use xconf.Prelude.{
  ℕ, ◌<◌, Bool, true, false, ◌&&◌, ◌||◌, not, Option, none, some, List, [], ◌∷◌, is_some, length,
  ltb, if◌then◌else◌,
}
use xconf.Text.{Str, str_eq}
use xconf.Error.{
  Error, Result, ok, err, ◌>>=◌, alive, not_found, too_large, fault, etcd_settings, etcd_response,
  etcd_entry, etcd_timeout, etcd_closed, etcd_unacknowledged,
}
use xconf.Layer.{Layer}
use xconf.Document.{Decoder, decode}
use xconf.Adapters.Numbers.{positive, nonnegative}
use xconf.Adapters.Watch.{Action, notify, stop, State, serving, waiting, ended, shortest, longer}

-- A KeyValue; `version` is its ModRevision.
pub record Entry : Type 0 where
  pub key : Str
  pub value : Str
  pub version : ℕ

-- A GetResponse: the revision of its header, none for a nil one, and its entries, which may be nil.
pub record Response : Type 0 where
  pub header : Option ℕ
  pub entries : List (Option Entry)

-- `client` tells whether the client is not nil. Durations and the limit are int64, by their bits.
pub record Source : Type 0 where
  pub client : Bool
  pub key : Str
  pub id : Str
  pub decoder : Option Decoder
  pub limit : ℕ
  pub timeout : ℕ
  pub interval : ℕ

unfoldable pub valid : Source → Bool
unfolding str_eq
valid s =
    s.client
    && not (str_eq s.key [])
    && is_some s.decoder
    && positive s.limit
    && positive s.timeout
    && nonnegative s.interval

abbrev pub good_header : Option ℕ → Bool
good_header none = false
good_header (some n) = positive n

-- get, where the client answers `reply`, none in it for a nil response, and ctx.Err() is `late`.
unfoldable pub get : Result (Option Response) → Option Error → Result Response
get reply late = do
  answer ← reply
  living ← alive late
  elim answer [
    | none ↦ err (fault etcd_response)
    | some r ↦
        if not (good_header r.header) || ltb 1 (length r.entries)
        then err (fault etcd_response)
        else ok r
  ]

unfoldable pub read_entry : (ℕ → Str) → (Str → Str) → Source → Option Entry → Result Layer
unfolding str_eq decode
read_entry format digest s none = err (fault etcd_entry)
read_entry format digest s (some kv) =
    if not (str_eq kv.key s.key)
    then err (fault etcd_entry)
    else if ltb s.limit (length kv.value)
    then err too_large
    else decode digest kv.value s.decoder s.id (format kv.version)

-- Read, where `format` is strconv.FormatInt in base ten.
unfoldable pub read :
    (ℕ → Str) → (Str → Str) → Result (Option Response) → Option Error → Source → Result Layer
unfolding valid get read_entry
read format digest reply late s =
    if not (valid s)
    then err (fault etcd_settings)
    else (get reply late >>= λ r. elim r.entries [
      | [] ↦ err not_found
      | kv ∷ rest ↦ read_entry format digest s kv
    ])

-- What the select of stream receives: the end of its context, or from the channel, with the error of
-- the context by then, the first response or none where the channel is closed.
pub data Registration : Type 0 where
  expired : Registration
  answered : Option Error → Option (Option Error × Bool) → Registration

-- stream, where the channel has the number n; a response is its Err() and its Created.
unfoldable pub stream : ℕ → Registration → Result ℕ
stream n expired = err (fault etcd_timeout)
stream n (answered late none) = alive late >>= λ living. err (fault etcd_closed)
stream n (answered late (some (failure, created))) = do
  living ← alive late
  healthy ← alive failure
  if created then ok n else err (fault etcd_unacknowledged)

-- One try to open a stream again: get, and stream at its revision.
pub record Try : Type 0 where
  pub reply : Result (Option Response)
  pub late : Option Error
  pub number : ℕ
  pub registration : Registration

unfoldable pub connect : Try → Result ℕ
unfolding get stream
connect t = get t.reply t.late >>= λ r. stream t.number t.registration

-- What the two selects of one turn receive. A timer that fires comes with the try after it and
-- whether ctx.Err() is an error then. A response is whether the channel is open, Err(), Canceled and
-- the number of its Events. Ticks come only where the interval is positive.
pub data Waited : Type 0 where
  done : Waited
  fired : Try → Bool → Waited

pub data Served : Type 0 where
  done tick : Served
  response : Bool → Option Error → Bool → ℕ → Served

pub record Round : Type 0 where
  pub waited : Waited
  pub served : Served

-- The second select. The deferred stopStream runs where the goroutine returns.
unfoldable pub serve : Served → ℕ → ℕ → State × List Action
serve done n b = (ended, stop n ∷ [])
serve tick n b = (serving n b, notify ∷ [])
serve (response live failure canceled events) n b =
    if not live || is_some failure || canceled
    then (waiting b, stop n ∷ notify ∷ [])
    else (serving n b, if ltb 0 events then notify ∷ [] else [])

-- After the timer: the try, and the second select where it succeeds.
unfoldable pub restart : Result ℕ → Bool → Served → ℕ → State × List Action
unfolding serve
restart (ok n) true w b = (ended, stop n ∷ [])
restart (ok n) false w b = let out = serve w n shortest in (out.0, notify ∷ out.1)
restart (err e) true w b = (ended, [])
restart (err e) false w b = (waiting (longer b), notify ∷ [])

-- The first select, where the channel is nil.
unfoldable pub resume : Waited → Served → ℕ → State × List Action
unfolding connect restart
resume done w b = (ended, [])
resume (fired t cancelled) w b = restart (connect t) cancelled w b

-- One turn of the loop of the goroutine.
unfoldable pub turn : Round → State → State × List Action
unfolding serve resume
turn r ended = (ended, [])
turn r (serving n b) = serve r.served n b
turn r (waiting b) = resume r.waited r.served b

-- Watch up to the start of the goroutine.
unfoldable pub watch : Try → Source → Result State
unfolding valid connect
watch t s =
    if not (valid s)
    then err (fault etcd_settings)
    else (connect t >>= λ n. ok (serving n shortest))
