-- ===== src/Adapters/Etcd/Laws.antt =====
-- The goroutine of the etcd source keeps the promise of the watching sources.
use xconf.Prelude.{
  ℕ, zero, suc, ◌≤◌, ◌≡◌, refl, sym, ap, Bool, true, false, ◌&&◌, Option, none, some, List, [], ◌∷◌,
  map, length, leb, arith, if◌then◌else◌, Bool-cases, inl, inr,
}
use xconf.Error.{Error, Result, ok, err, ◌>>=◌, fault, etcd_response}
use xconf.Adapters.Numbers.{positive}
use xconf.Adapters.Watch.{
  notify, stop, serving, waiting, ended, shortest, longest, longer_lem, turns, IsPaced, IsWatch,
  turns-Keeps, Tried, given_up, opened, refused, Heard, following, lost, finished, quiet, news,
  broken, hear, Seen, promise, Keeps,
}
use xconf.Adapters.Etcd.{
  Response, Registration, expired, answered, Served, done, tick, response, Waited, fired, get,
  stream, connect, serve, resume, restart, turn, Round,
}

-- A response to a get: it has a positive revision, and at most one entry.
abbrev is_proper : Response → Bool
is_proper r = (elim r.header [ none ↦ false | some n ↦ positive n ]) && leb (length r.entries) 1

-- A try opens a stream exactly if a proper response came in time, and then a first response that
-- announces the stream, also in time and without an error.
abbrev opens : Result (Option Response) → Option Error → Registration → Bool
opens (ok (some r)) none (answered none (some (none, true))) = is_proper r
opens reply late registration = false

abbrev tried : Waited → Tried
tried done = given_up
tried (fired t cancelled) =
    if opens t.reply t.late t.registration
    then opened t.number cancelled
    else refused none cancelled

-- A channel that is closed, an error and a cancellation are each a loss; otherwise events are news.
abbrev heard : Served → Heard
heard done = finished
heard tick = news
heard (response false failure canceled events) = broken
heard (response true (some e) canceled events) = broken
heard (response true none true events) = broken
heard (response true none false zero) = quiet
heard (response true none false (suc n)) = news

abbrev pub seen : Round → Seen
seen r = record { tried = tried r.waited; heard = heard r.served }

-- A result is the number where the try opens a stream, and otherwise an error.
abbrev Agrees : Bool → ℕ → Result ℕ → Type 0
Agrees true n (ok m) = m ≡ n
Agrees false n (err e) = Unit
Agrees _ n _ = ⊥

serve-Keeps :
    (w : Served) (n b : ℕ) → IsPaced (serving n b) → Keeps (serve w n b) (hear (heard w) n)
unfolding serve hear
serve-Keeps done n b p = (tt, refl, refl)
serve-Keeps tick n b p = (p, refl, refl)
serve-Keeps (response false failure canceled events) n b p = (p, refl, refl)
serve-Keeps (response true (some e) canceled events) n b p = (p, refl, refl)
serve-Keeps (response true none true events) n b p = (p, refl, refl)
serve-Keeps (response true none false zero) n b p = (p, refl, refl)
serve-Keeps (response true none false (suc k)) n b p = (p, refl, ground arith)

get_lem :
    (r : Response)
    → get (ok (some r)) none ≡ (if is_proper r then ok r else err (fault etcd_response))
unfolding get
get_lem r = ground arith

connect-Agrees :
    (reply : Result (Option Response)) (late : Option Error) (n : ℕ) (registration : Registration)
    → Agrees (opens reply late registration) n (get reply late >>= λ r. stream n registration)
unfolding get stream
connect-Agrees (err e) late n registration = tt
connect-Agrees (ok none) none n registration = tt
connect-Agrees (ok none) (some e) n registration = tt
connect-Agrees (ok (some r)) (some e) n registration = tt
connect-Agrees (ok (some r)) none n registration = rw get_lem (elim (Bool-cases (is_proper r)) [
  | inl e ↦ rw e (streamed e registration)
  | inr e ↦ rw e (failing e registration)
])
  where
    streamed :
        is_proper r ≡ true → (g : Registration) → Agrees (opens (ok (some r)) none g) n (stream n g)
    streamed e expired = tt
    streamed e (answered (some x) none) = tt
    streamed e (answered (some x) (some (failure, created))) = tt
    streamed e (answered none none) = tt
    streamed e (answered none (some (some x, created))) = tt
    streamed e (answered none (some (none, false))) = tt
    streamed e (answered none (some (none, true))) = rw e refl

    failing :
        is_proper r ≡ false
        → (g : Registration) → Agrees (opens (ok (some r)) none g) n (err (fault etcd_response))
    failing e expired = tt
    failing e (answered (some x) first) = tt
    failing e (answered none none) = tt
    failing e (answered none (some (some x, created))) = tt
    failing e (answered none (some (none, false))) = tt
    failing e (answered none (some (none, true))) = rw e tt

restart-Keeps :
    (opening : Bool) (t : Result ℕ) (n : ℕ) (cancelled : Bool) (w : Served) (b : ℕ)
    → Agrees opening n t
    → IsPaced (waiting b)
    → Keeps (restart t cancelled w b) (
        promise
          (record {
            tried = if opening then opened n cancelled else refused none cancelled;
            heard = heard w;
          })
          lost)
unfolding restart promise
restart-Keeps true (ok m) n true w b a p = (tt, refl, ap (λ x. stop x ∷ []) a)
restart-Keeps true (ok m) n false w b a p =
    let (q, v, c) = serve-Keeps w m shortest (omega arith, omega arith) in
    rw (sym a) (q, v, ap (λ x. notify ∷ x) c)
restart-Keeps true (err e) n cancelled w b a p = absurd a
restart-Keeps false (ok m) n cancelled w b a p = absurd a
restart-Keeps false (err e) n true w b a p = (tt, refl, refl)
restart-Keeps false (err e) n false w b a p = (longer_lem b p.0 p.1, refl, refl)

turn-IsWatch : IsWatch turn seen
unfolding turn resume promise
turn-IsWatch r ended p = (tt, refl, refl)
turn-IsWatch r (serving n b) p = serve-Keeps r.served n b p
turn-IsWatch r (waiting b) p = resumed r.waited
  where
    resumed :
        (a : Waited)
        → Keeps
            (resume a r.served b)
            (promise (record { tried = tried a; heard = heard r.served }) lost)
    resumed done = (tt, refl, refl)
    resumed (fired t cancelled) =
        restart-Keeps (opens t.reply t.late t.registration) (connect t) t.number cancelled r.served
          b (connect-Agrees t.reply t.late t.number t.registration) p

-- From a turn with a stream open and a pause between 250ms and 5s, whatever the two selects
-- receive, and however often, the loop of the etcd source is in the place and has made the calls that
-- the watching sources promise. A channel that closes, a response with an error and a cancellation
-- each lose the stream, which is stopped, and told; events and ticks are told; and a stream is open
-- again exactly if a proper response to a get and an announcement without an error come in time. The
-- pause stays between 250ms and 5s.
pub etcd_turns-Keeps :
    (rounds : List Round) (n b : ℕ)
    → shortest ≤ b
    → b ≤ longest
    → Keeps (turns turn rounds (serving n b)) (turns promise (map seen rounds) (following n))
etcd_turns-Keeps rounds n b lo hi = turns-Keeps turn seen rounds (serving n b) turn-IsWatch (lo, hi)
