-- ===== src/Adapters/Kubernetes/Watch.antt =====
-- `stream` and the goroutine of Watch in contrib/sources/kubernetes/kubernetes.go.
pub mod Laws
use xconf.Prelude.{
  ℕ, Bool, true, false, not, Option, none, some, List, [], ◌∷◌, ◌++◌, if◌then◌else◌,
}
use xconf.Text.{Str, str_eq}
use xconf.Error.{
  Error, Result, ok, err, ◌>>=◌, alive, fault, kubernetes_settings, missing_version, nil_watch,
  nil_list,
}
use xconf.Adapters.Watch.{Action, notify, stop, State, serving, waiting, ended, shortest, longer}
use xconf.Adapters.Kubernetes.{Source, valid}

-- s.list of ConfigMap and of Secret: what the client answers, none for a nil list, else its
-- ResourceVersion.
unfoldable pub list : Result (Option Str) → Result Str
list reply = reply >>= λ o. elim o [ none ↦ err (fault nil_list) | some v ↦ ok v ]

-- What s.watch returns, with child.Err() after it: an error, and a watch by its number or none for nil.
pub record Opened : Type 0 where
  pub failure : Option Error
  pub late : Option Error
  pub watcher : Option ℕ

-- The error of s.watch, else the one of the child context.
abbrev pub first_error : Option Error → Option Error → Option Error
first_error (some e) late = some e
first_error none late = late

abbrev pub dropped : Option ℕ → List Action
dropped none = []
dropped (some n) = stop n ∷ []

-- The end of stream: a watch that came with an error is stopped.
unfoldable pub accept : Option Error → Option ℕ → Result ℕ × List Action
accept (some e) watcher = (err e, dropped watcher)
accept none none = (err (fault nil_watch), [])
accept none (some n) = (ok n, [])

-- stream, where the list is answered by `listed`. Both of stopStream and w.Stop are `stop`.
unfoldable pub stream : Result (Option Str) → Opened → Result ℕ × List Action
unfolding list accept str_eq
stream listed o = elim (list listed) [
  | err e ↦ (err e, [])
  | ok version ↦
      if str_eq version []
      then (err (fault missing_version), [])
      else accept (first_error o.failure o.late) o.watcher
]

-- The type of an event, with what meta.Accessor finds of its object: the name, or an error.
pub data Kind : Type 0 where
  added modified deleted : Kind
  bookmark failed other : Kind

pub data Waited : Type 0 where
  done : Waited
  fired : Result (Option Str) → Opened → Bool → Waited

-- An event is whether the channel is open, its type, and what the accessor finds. Ticks come only
-- where the interval is positive.
pub data Served : Type 0 where
  done tick : Served
  event : Bool → Kind → Result Str → Served

pub record Round : Type 0 where
  pub waited : Waited
  pub served : Served

-- An event of an object: one that has no name ends the stream, one with the source's name is told.
unfoldable pub changed : Str → Result Str → ℕ → ℕ → State × List Action
unfolding str_eq
changed name (err e) n b = (waiting b, stop n ∷ notify ∷ [])
changed name (ok found) n b = (serving n b, if str_eq found name then notify ∷ [] else [])

unfoldable pub by_kind : Str → Kind → Result Str → ℕ → ℕ → State × List Action
unfolding changed
by_kind name failed object n b = (waiting b, stop n ∷ notify ∷ [])
by_kind name added object n b = changed name object n b
by_kind name modified object n b = changed name object n b
by_kind name deleted object n b = changed name object n b
by_kind name bookmark object n b = (serving n b, [])
by_kind name other object n b = (serving n b, [])

-- The second select.
unfoldable pub serve : Str → Served → ℕ → ℕ → State × List Action
unfolding by_kind
serve name done n b = (ended, stop n ∷ [])
serve name tick n b = (serving n b, notify ∷ [])
serve name (event false kind object) n b = (waiting b, stop n ∷ notify ∷ [])
serve name (event true kind object) n b = by_kind name kind object n b

-- After a try: whether it opened a stream, and whether ctx.Err() is an error.
unfoldable pub restart : Str → Result ℕ → Bool → Served → ℕ → State × List Action
unfolding serve
restart name (ok n) true w b = (ended, stop n ∷ [])
restart name (ok n) false w b = let out = serve name w n shortest in (out.0, notify ∷ out.1)
restart name (err e) true w b = (ended, [])
restart name (err e) false w b = (waiting (longer b), notify ∷ [])

-- The first select, where w is nil.
unfoldable pub resume : Str → Waited → Served → ℕ → State × List Action
unfolding stream restart
resume name done w b = (ended, [])
resume name (fired listed o cancelled) w b =
    let tried = stream listed o in
    let out = restart name tried.0 cancelled w b in (out.0, tried.1 ++ out.1)

-- One turn of the loop of the goroutine, for the object with the name.
unfoldable pub turn : Str → Round → State → State × List Action
unfolding serve resume
turn name r ended = (ended, [])
turn name r (serving n b) = serve name r.served n b
turn name r (waiting b) = resume name r.waited r.served b

-- Watch up to the start of the goroutine, with the watches that stream stopped.
unfoldable pub watch : Result (Option Str) → Opened → Source → Result State × List Action
unfolding valid stream
watch listed o s =
    if not (valid s)
    then (err (fault kubernetes_settings), [])
    else let tried = stream listed o in (tried.0 >>= λ n. ok (serving n shortest), tried.1)
