-- ===== src/Adapters/Kubernetes/Watch/Laws.antt =====
-- The goroutine of the Kubernetes source keeps the promise of the watching sources.
use xconf.Prelude.{
  ℕ, ◌≤◌, ◌≡◌, refl, ap, Bool, true, false, Option, none, some, List, [], ◌∷◌, ◌++◌, map, arith,
  inl, inr, if◌then◌else◌, Bool-cases, append-nil,
}
use xconf.Text.{Str, str_eq}
use xconf.Error.{Error, Result, ok, err}
use xconf.Adapters.Watch.{
  Action, notify, serving, waiting, ended, shortest, longest, longer_lem, turns, IsPaced, IsWatch,
  turns-Keeps, Tried, given_up, opened, refused, Heard, following, lost, finished, quiet, news,
  broken, hear, stops, Seen, promise, Keeps,
}
use xconf.Adapters.Kubernetes.Watch.{
  added, modified, deleted, bookmark, failed, other, Served, done, tick, event, Waited, fired,
  Opened, accept, stream, list, first_error, changed, by_kind, serve, restart, resume, turn, Round,
}

-- With a version to start from, a watch is open if there is one, without an error of the client or of the
-- context of the try; with an error it is half open.
abbrev begun : Option Error → Option Error → Option ℕ → Bool → Tried
begun none none (some n) cancelled = opened n cancelled
begun none none none cancelled = refused none cancelled
begun (some e) late watcher cancelled = refused watcher cancelled
begun none (some e) watcher cancelled = refused watcher cancelled

-- The list has to give the version: without one there is no watch.
abbrev opens : Result (Option Str) → Opened → Bool → Tried
opens (ok (some (c ∷ version))) o cancelled = begun o.failure o.late o.watcher cancelled
opens listed o cancelled = refused none cancelled

abbrev tried : Waited → Tried
tried done = given_up
tried (fired listed o cancelled) = opens listed o cancelled

-- A change of an object is news if it has the given name, and a loss if it has none.
abbrev about : Str → Result Str → Heard
about name (err e) = broken
about name (ok found) = if str_eq found name then news else quiet

-- A channel that is closed and an event of type Error are each a loss.
abbrev heard : Str → Served → Heard
heard name done = finished
heard name tick = news
heard name (event false kind object) = broken
heard name (event true added object) = about name object
heard name (event true modified object) = about name object
heard name (event true deleted object) = about name object
heard name (event true bookmark object) = quiet
heard name (event true failed object) = broken
heard name (event true other object) = quiet

abbrev pub seen : Str → Round → Seen
seen name r = record { tried = tried r.waited; heard = heard name r.served }

-- What stream gives is what the try comes to: the number of the watch, or what it stopped.
abbrev Agrees : Tried → Bool → Result ℕ × List Action → Type 0
Agrees a cancelled (ok n, calls) = (a ≡ opened n cancelled) × (calls ≡ [])
Agrees a cancelled (err e, calls) =
    (half : Option ℕ) × (a ≡ refused half cancelled) × (calls ≡ stops half)

accept-Agrees :
    (failure late : Option Error) (watcher : Option ℕ) (cancelled : Bool)
    → Agrees
        (begun failure late watcher cancelled)
        cancelled
        (accept (first_error failure late) watcher)
unfolding accept
accept-Agrees none none (some n) cancelled = (refl, refl)
accept-Agrees none none none cancelled = (none, refl, refl)
accept-Agrees (some e) late none cancelled = (none, refl, refl)
accept-Agrees (some e) late (some n) cancelled = (some n, refl, refl)
accept-Agrees none (some e) none cancelled = (none, refl, refl)
accept-Agrees none (some e) (some n) cancelled = (some n, refl, refl)

stream-Agrees :
    (listed : Result (Option Str)) (o : Opened) (cancelled : Bool)
    → Agrees (opens listed o cancelled) cancelled (stream listed o)
unfolding stream list str_eq
stream-Agrees (err e) o cancelled = (none, refl, refl)
stream-Agrees (ok none) o cancelled = (none, refl, refl)
stream-Agrees (ok (some [])) o cancelled = (none, refl, refl)
stream-Agrees (ok (some (c ∷ version))) o cancelled =
    accept-Agrees o.failure o.late o.watcher cancelled

module _ (name : Str) where
  changed-Keeps :
      (object : Result Str) (n b : ℕ)
      → IsPaced (serving n b)
      → Keeps (changed name object n b) (hear (about name object) n)
  unfolding changed hear
  changed-Keeps (err e) n b p = (p, refl, refl)
  changed-Keeps (ok found) n b p = elim (Bool-cases (str_eq found name)) [
    | inl hit ↦ rw hit (p, refl, refl)
    | inr miss ↦ rw miss (p, refl, refl)
  ]

  serve-Keeps :
      (w : Served) (n b : ℕ)
      → IsPaced (serving n b)
      → Keeps (serve name w n b) (hear (heard name w) n)
  unfolding serve hear by_kind
  serve-Keeps done n b p = (tt, refl, refl)
  serve-Keeps tick n b p = (p, refl, refl)
  serve-Keeps (event false kind object) n b p = (p, refl, refl)
  serve-Keeps (event true added object) n b p = changed-Keeps object n b p
  serve-Keeps (event true modified object) n b p = changed-Keeps object n b p
  serve-Keeps (event true deleted object) n b p = changed-Keeps object n b p
  serve-Keeps (event true bookmark object) n b p = (p, refl, refl)
  serve-Keeps (event true failed object) n b p = (p, refl, refl)
  serve-Keeps (event true other object) n b p = (p, refl, refl)

  restart-Keeps :
      (a : Tried) (t : Result ℕ × List Action) (cancelled : Bool) (w : Served) (b : ℕ)
      → Agrees a cancelled t
      → IsPaced (waiting b)
      → let out = restart name t.0 cancelled w b in
        Keeps (out.0, t.1 ++ out.1) (promise (record { tried = a; heard = heard name w }) lost)
  unfolding restart promise
  restart-Keeps a (ok n, calls) true w b (e, d) p = rw (e, d) (tt, refl, refl)
  restart-Keeps a (ok n, calls) false w b (e, d) p =
      let (q, v, c) = serve-Keeps w n shortest (omega arith, omega arith) in
      rw (e, d) (q, v, ap (λ x. notify ∷ x) c)
  restart-Keeps a (err x, calls) true w b (half, e, d) p =
      rw (e, d) (tt, refl, append-nil (stops half))
  restart-Keeps a (err x, calls) false w b (half, e, d) p =
      rw (e, d) (longer_lem b p.0 p.1, refl, refl)

  turn-IsWatch : IsWatch (turn name) (seen name)
  unfolding turn resume promise
  turn-IsWatch r ended p = (tt, refl, refl)
  turn-IsWatch r (serving n b) p = serve-Keeps r.served n b p
  turn-IsWatch r (waiting b) p = resumed r.waited
    where
      resumed :
          (a : Waited)
          → Keeps
              (resume name a r.served b)
              (promise (record { tried = tried a; heard = heard name r.served }) lost)
      resumed done = (tt, refl, refl)
      resumed (fired listed o cancelled) =
          restart-Keeps (opens listed o cancelled) (stream listed o) cancelled r.served b
            (stream-Agrees listed o cancelled) p

  -- From a turn with a watch open and a pause between 250ms and 5s, whatever the two selects
  -- receive, and however often, the loop of the Kubernetes source is in the place and has made the
  -- calls that the watching sources promise. A channel that closes, an event of type Error and a change
  -- of an object without a name each lose the watch, which is stopped, and told; changes of the object
  -- with the given name and ticks are told; and a watch is open again exactly if the list gives a version
  -- and the watch comes without an error and in time, while one that comes with an error, or as the context
  -- ends, is stopped. The pause stays between 250ms and 5s.
  pub kubernetes_turns-Keeps :
      (rounds : List Round) (n b : ℕ)
      → shortest ≤ b
      → b ≤ longest
      → Keeps
          (turns (turn name) rounds (serving n b))
          (turns promise (map (seen name) rounds) (following n))
  kubernetes_turns-Keeps rounds n b lo hi =
      turns-Keeps (turn name) (seen name) rounds (serving n b) turn-IsWatch (lo, hi)
