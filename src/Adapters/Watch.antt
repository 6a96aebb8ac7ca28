-- ===== src/Adapters/Watch.antt =====
-- What the goroutines of the Watch methods of etcd, nats and kubernetes (contrib/sources) have in
-- common: what one turn of their loop does to the stream, the pause between two tries to open it,
-- and what the three loops promise of the turns that they take.
use xconf.Prelude.{
  ℕ, ◌*◌, ◌^◌, ◌≤◌, ◌≡◌, refl, ap, ◌∙◌, Bool, true, false, Option, none, some, List, [], ◌∷◌, ◌++◌,
  map, leb, arith, if◌then◌else◌,
}

-- What a loop calls: notify, or the stop of a stream, by its number.
pub data Action : Type 0 where
  notify : Action
  stop : ℕ → Action

-- The state of a loop: a stream and the pause, only the pause where the stream is nil, or the end of
-- the goroutine with its deferred functions. A pause is in nanoseconds.
pub data State : Type 0 where
  serving : ℕ → ℕ → State
  waiting : ℕ → State
  ended : State

-- 250 * time.Millisecond
abbrev pub shortest : ℕ
shortest = 250 * 10 ^ 6

-- 5 * time.Second
abbrev pub longest : ℕ
longest = 5 * 10 ^ 9

-- min(backoff*2, 5*time.Second)
abbrev pub longer : ℕ → ℕ
longer b = if leb (b * 2) longest then b * 2 else longest

-- The turns of a loop, one after the other, with all that they called.
unfoldable pub turns :
    {Round S : Type 0} → (Round → S → S × List Action) → List Round → S → S × List Action
turns turn [] s = (s, [])
turns turn (r ∷ rs) s =
    let out = turn r s in let later = turns turn rs out.0 in (later.0, out.1 ++ later.1)

abbrev pub IsPaced : State → Type 0
IsPaced (serving n b) = (shortest ≤ b) × (b ≤ longest)
IsPaced (waiting b) = (shortest ≤ b) × (b ≤ longest)
IsPaced ended = Unit

pub longer_lem : (b : ℕ) → shortest ≤ b → b ≤ longest → (shortest ≤ longer b) × (longer b ≤ longest)
longer_lem b lo hi = (ground arith, ground arith)

-- What a watcher promises, without the pauses: it follows one stream, or has lost it, or has left.
pub data View : Type 0 where
  following : ℕ → View
  lost left : View

abbrev view : State → View
view (serving n b) = following n
view (waiting b) = lost
view ended = left

-- What the first select and the try after it come to: the goroutine has to end, or a stream opened, or it
-- did not, with the stream that has to be stopped if there is one; and whether the context has ended by
-- then.
pub data Tried : Type 0 where
  given_up : Tried
  opened : ℕ → Bool → Tried
  refused : Option ℕ → Bool → Tried

-- What a stream that is open comes to: the end of the context, no news, news or a tick, or its loss.
pub data Heard : Type 0 where
  finished quiet news broken : Heard

-- A turn, as the promise sees it.
pub record Seen : Type 0 where
  pub tried : Tried
  pub heard : Heard

-- What a watcher does with a stream: news are told, and a loss stops the stream and is told.
unfoldable pub hear : Heard → ℕ → View × List Action
hear finished n = (left, stop n ∷ [])
hear quiet n = (following n, [])
hear news n = (following n, notify ∷ [])
hear broken n = (lost, stop n ∷ notify ∷ [])

abbrev pub stops : Option ℕ → List Action
stops none = []
stops (some n) = stop n ∷ []

-- What a watcher does in a turn: while the context lives, each try is told, whether it opened a stream
-- or not; a stream that is half open, or opens too late, is stopped.
unfoldable pub promise : Seen → View → View × List Action
unfolding hear
promise r left = (left, [])
promise r (following n) = hear r.heard n
promise r lost = elim r.tried [
  | given_up ↦ (left, [])
  | opened n true ↦ (left, stop n ∷ [])
  | opened n false ↦ let out = hear r.heard n in (out.0, notify ∷ out.1)
  | refused half true ↦ (left, stops half)
  | refused half false ↦ (lost, stops half ++ notify ∷ [])
]

-- The loop has done what was promised, and keeps the pause in its bounds.
abbrev pub Keeps : State × List Action → View × List Action → Type 0
Keeps out promised = IsPaced out.0 × (view out.0 ≡ promised.0) × (out.1 ≡ promised.1)

module _ {Round : Type 0} (turn : Round → State → State × List Action) (seen : Round → Seen) where
  abbrev pub IsWatch : Type 0
  IsWatch = (r : Round) (s : State) → IsPaced s → Keeps (turn r s) (promise (seen r) (view s))

  pub turns-Keeps :
      (rs : List Round) (s : State)
      → IsWatch
      → IsPaced s
      → Keeps (turns turn rs s) (turns promise (map seen rs) (view s))
  unfolding turns
  turns-Keeps [] s watches p = (p, refl, refl)
  turns-Keeps (r ∷ rs) s watches p =
      let (q, v, a) = watches r s p in
      let (l, w, b) = turns-Keeps rs (turn r s).0 watches q in
      let told = promise (seen r) (view s) in
      (
        l,
        w ∙ ap (λ x. (turns promise (map seen rs) x).0) v,
        ap (λ x. x ++ (turns turn rs (turn r s).0).1) a
            ∙ ap (λ x. told.1 ++ x) (b ∙ ap (λ x. (turns promise (map seen rs) x).1) v),
      )
