-- ===== src/Adapters/Nats/Laws.antt =====
-- The goroutine of the NATS source keeps the promise of the watching sources.
use xconf.Prelude.{ℕ, ◌≤◌, refl, ap, true, false, Option, none, some, List, ◌∷◌, map, arith}
use xconf.Error.{Error}
use xconf.Adapters.Watch.{
  notify, serving, waiting, ended, shortest, longest, longer_lem, turns, IsPaced, IsWatch,
  turns-Keeps, Tried, given_up, opened, refused, Heard, following, lost, finished, quiet, news,
  broken, hear, Seen, promise, Keeps,
}
use xconf.Adapters.Nats.{
  Served, done, tick, update, Waited, fired, resume, serve, restart, turn, Round,
}

-- A try opens a watcher if there is one and no error; a watcher with an error is half open. The context
-- is not asked.
abbrev opens : Option Error → Option ℕ → Tried
opens none (some n) = opened n false
opens none none = refused none false
opens (some e) watcher = refused watcher false

abbrev tried : Waited → Tried
tried done = given_up
tried (fired failure watcher) = opens failure watcher

-- A channel that is closed is a loss, and an entry that is not nil is news.
abbrev heard : Served → Heard
heard done = finished
heard tick = news
heard (update false filled) = broken
heard (update true false) = quiet
heard (update true true) = news

abbrev pub seen : Round → Seen
seen r = record { tried = tried r.waited; heard = heard r.served }

serve-Keeps :
    (w : Served) (n b : ℕ) → IsPaced (serving n b) → Keeps (serve w n b) (hear (heard w) n)
unfolding serve hear
serve-Keeps done n b p = (tt, refl, refl)
serve-Keeps tick n b p = (p, refl, refl)
serve-Keeps (update false filled) n b p = (p, refl, refl)
serve-Keeps (update true true) n b p = (p, refl, refl)
serve-Keeps (update true false) n b p = (p, refl, refl)

restart-Keeps :
    (failure : Option Error) (watcher : Option ℕ) (w : Served) (b : ℕ)
    → IsPaced (waiting b)
    → Keeps
        (restart failure watcher w b)
        (promise (record { tried = opens failure watcher; heard = heard w }) lost)
unfolding restart promise
restart-Keeps (some e) none w b p = (longer_lem b p.0 p.1, refl, refl)
restart-Keeps (some e) (some n) w b p = (longer_lem b p.0 p.1, refl, refl)
restart-Keeps none none w b p = (longer_lem b p.0 p.1, refl, refl)
restart-Keeps none (some n) w b p =
    let (q, v, c) = serve-Keeps w n shortest (omega arith, omega arith) in
    (q, v, ap (λ x. notify ∷ x) c)

turn-IsWatch : IsWatch turn seen
unfolding turn resume promise
turn-IsWatch r ended p = (tt, refl, refl)
turn-IsWatch r (serving n b) p = serve-Keeps r.served n b p
turn-IsWatch r (waiting b) p = resumed r.waited
  where
    resumed :
        (a : Waited)
        → Keeps
            (resume a r.served b)
            (promise (record { tried = tried a; heard = heard r.served }) lost)
    resumed done = (tt, refl, refl)
    resumed (fired failure watcher) = restart-Keeps failure watcher r.served b p

-- From a turn with a watcher open and a pause between 250ms and 5s, whatever the two selects
-- receive, and however often, the loop of the NATS source is in the place and has made the calls that
-- the watching sources promise. A channel that closes loses the watcher, which is stopped, and told;
-- entries and ticks are told; and a watcher is open again exactly if one comes without an error, while
-- one that comes with an error is stopped. The pause stays between 250ms and 5s.
pub nats_turns-Keeps :
    (rounds : List Round) (n b : ℕ)
    → shortest ≤ b
    → b ≤ longest
    → Keeps (turns turn rounds (serving n b)) (turns promise (map seen rounds) (following n))
nats_turns-Keeps rounds n b lo hi = turns-Keeps turn seen rounds (serving n b) turn-IsWatch (lo, hi)
