-- ===== src/Adapters/Consul/Watch/Laws.antt =====
-- The goroutine of the Consul source tells each change of the index.
use xconf.Prelude.{
  ℕ, ◌≤◌, ◌≡◌, ◌≢◌, ◌⊎◌, inl, inr, refl, ap, ◌∙◌, Bool, true, false, ◌==◌, none, List, [], ◌∷◌,
  arith, All, Bool-cases, Option-cases,
}
use xconf.Error.{Error, Result, ok, err}
use xconf.Adapters.Watch.{notify, shortest, longest, longer_lem, turns}
use xconf.Adapters.Consul.{Meta}
use xconf.Adapters.Consul.Watch.{
  State, asking, ended, Round, after_failure, after_reply, query, queried, turn,
}

-- A change from the index a will be told: the last query failed, or the next one waits for a change of a or
-- for nothing.
abbrev IsAlert : ℕ → State → Type 0
IsAlert a (asking j b failed) = (failed ≡ true) ⊎ ((j ≡ 0) ⊎ (j ≡ a))
IsAlert a ended = Unit

-- A query that failed, or the end of the goroutine.
abbrev pub IsFailed : ℕ → Round → Type 0
IsFailed limit r = (e : Error) × (query limit r ≡ err e)

-- A query that succeeded in a goroutine that goes on.
abbrev pub IsAnswered : ℕ → Round → ℕ → Type 0
IsAnswered limit r last =
    (r.limited ≡ none)
    × (r.cancelled ≡ false)
    × ((m : Meta) × (query limit r ≡ ok m) × (m.last_index ≡ last))

after_failure-IsAlert : (a : ℕ) (left : Bool) (j b : ℕ) → IsAlert a (after_failure left j b).0
unfolding after_failure
after_failure-IsAlert a true j b = tt
after_failure-IsAlert a false j b = inl refl

after_reply-IsAlert : (a j : ℕ) (failed : Bool) → 1 ≤ a → IsAlert a (after_reply a j failed).0
unfolding after_reply
after_reply-IsAlert a j failed h = inr (ground arith)

turn-IsAlert :
    (limit : ℕ) (a : ℕ) (r : Round) (s : State)
    → IsFailed limit r
    → IsAlert a s
    → IsAlert a (turn limit r s).0
unfolding turn queried
turn-IsAlert limit a r ended f h = tt
turn-IsAlert limit a r (asking j b failed) (e, f) h = elim (Option-cases r.limited) [
  | inr (x, d) ↦ rw (d, turn) tt
  | inl d ↦ elim (Bool-cases r.cancelled) [
    | inl c ↦ rw (d, f, c, turn) tt
    | inr c ↦ rw (d, f, c, turn) (after_failure-IsAlert a r.left j b)
  ]
]

turns-IsAlert :
    (limit : ℕ) (a : ℕ) (rs : List Round) (s : State)
    → All (IsFailed limit) rs
    → IsAlert a s
    → IsAlert a (turns (turn limit) rs s).0
unfolding turns
turns-IsAlert limit a [] s f h = h
turns-IsAlert limit a (r ∷ rs) s f h =
    turns-IsAlert limit a rs (turn limit r s).0 f.1 (turn-IsAlert limit a r s f.0 h)

other_index : (last j a : ℕ) → 1 ≤ last → last ≢ a → (j ≡ 0) ⊎ (j ≡ a) → (last == j) ≡ false
other_index last j a h n w = ground arith

after_reply-told :
    (a last j : ℕ) (b : ℕ) (failed : Bool)
    → 1 ≤ last
    → last ≢ a
    → IsAlert a (asking j b failed)
    → (after_reply last j failed).1 ≡ notify ∷ []
unfolding after_reply
after_reply-told a last j b failed h n (inl e) = rw e refl
after_reply-told a last j b true h n (inr w) = refl
after_reply-told a last j b false h n (inr w) = rw (other_index last j a h n w) refl

turn-answered :
    (limit last j b : ℕ) (failed : Bool) (r : Round)
    → IsAnswered limit r last
    → turn limit r (asking j b failed) ≡ after_reply last j failed
unfolding turn queried
turn-answered limit last j b failed r (l, c, (m, q, e)) =
    rw (l, q, c, turn) (ap (λ x. after_reply x j failed) e)

told_after :
    (limit a last : ℕ) (r : Round) (s : State)
    → 1 ≤ last
    → last ≢ a
    → IsAnswered limit r last
    → IsAlert a s
    → (s ≡ ended) ⊎ ((turn limit r s).1 ≡ notify ∷ [])
told_after limit a last r ended h n w t = inl refl
told_after limit a last r (asking j b failed) h n w t = inr (
    ap (λ x. x.1) (turn-answered limit last j b failed r w)
    ∙ after_reply-told a last j b failed h n t)

-- Where one query answers with an index a, then any number of queries fail, and the next one answers with
-- another index, both at least 1: either the goroutine has ended, or that last answer is told, also where
-- the index went back.
pub consul_turns-told :
    (limit a last j b : ℕ) (failed : Bool) (r : Round) (rs : List Round) (t : Round)
    → 1 ≤ a
    → 1 ≤ last
    → last ≢ a
    → IsAnswered limit r a
    → All (IsFailed limit) rs
    → IsAnswered limit t last
    → ((turns (turn limit) (r ∷ rs) (asking j b failed)).0 ≡ ended)
      ⊎ ((turn limit t (turns (turn limit) (r ∷ rs) (asking j b failed)).0).1 ≡ notify ∷ [])
unfolding turns
consul_turns-told limit a last j b failed r rs t ha hl n w f v =
    told_after limit a last t (turns (turn limit) (r ∷ rs) (asking j b failed)).0 hl n v (
      turns-IsAlert limit a rs (turn limit r (asking j b failed)).0 f
        (rw (turn-answered limit a j b failed r w) (after_reply-IsAlert a j failed ha)))

abbrev pub IsPaced : State → Type 0
IsPaced (asking index b failed) = (shortest ≤ b) × (b ≤ longest)
IsPaced ended = Unit

queried-IsPaced :
    (got : Result Meta) (cancelled left : Bool) (j b : ℕ) (failed : Bool)
    → IsPaced (asking j b failed)
    → IsPaced (queried got cancelled left j b failed).0
unfolding queried after_failure after_reply
queried-IsPaced got true left j b failed p = tt
queried-IsPaced (err e) false true j b failed p = tt
queried-IsPaced (err e) false false j b failed p = longer_lem b p.0 p.1
queried-IsPaced (ok m) false left j b failed p = (omega arith, omega arith)

-- The pause after a failure stays between 250ms and 5s.
pub turn-IsPaced : (limit : ℕ) (r : Round) (s : State) → IsPaced s → IsPaced (turn limit r s).0
unfolding turn
turn-IsPaced limit r ended p = tt
turn-IsPaced limit r (asking j b failed) p = elim (Option-cases r.limited) [
  | inr (x, d) ↦ rw (d, turn) tt
  | inl d ↦ rw (d, turn) (queried-IsPaced (query limit r) r.cancelled r.left j b failed p)
]
