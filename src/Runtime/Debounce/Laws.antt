-- ===== src/Runtime/Debounce/Laws.antt =====
-- No invalidation is lost, and no reload is made without one.
use xconf.Prelude.{
  ℕ, suc, ◌+◌, ◌≤◌, ◌≡◌, ◌⊎◌, inl, inr, refl, Bool, true, false, List, [], ◌∷◌, arith,
  if◌then◌else◌,
}
use xconf.Runtime.Debounce.{
  listening, pausing, draining, reloading, left, State, at, Event, invalidated, received, fired,
  drained, reloaded, cancelled, step, run, start,
}

-- Whether invalidate was called since Reload was last called, from an answer for what came before.
abbrev owed_by : Event → Bool → Bool → Bool
owed_by e true owed = false
owed_by invalidated false owed = true
owed_by e false owed = owed

unfoldable pub owed : List Event → State → Bool → Bool
unfolding step
owed [] s before = before
owed (e ∷ es) s before = owed es (step e s).0 (owed_by e (step e s).1 before)

-- The calls of invalidate, and those of Reload.
unfoldable pub calls : List Event → ℕ
calls [] = 0
calls (invalidated ∷ es) = suc (calls es)
calls (e ∷ es) = calls es

unfoldable pub reloads : List Event → State → ℕ
unfolding step
reloads [] s = 0
reloads (e ∷ es) s = (if (step e s).1 then 1 else 0) + reloads es (step e s).0

-- The events of the loop itself, up to its next call of Reload, where nothing else happens.
abbrev next_events : State → List Event
next_events (at listening dirty) = received ∷ fired ∷ drained ∷ []
next_events (at pausing dirty) = fired ∷ drained ∷ []
next_events (at draining dirty) = drained ∷ []
next_events (at reloading dirty) = reloaded ∷ received ∷ fired ∷ drained ∷ []
next_events (at left dirty) = []

-- The loop has returned, or left to itself it calls Reload.
abbrev pub IsPending : State → Type 0
IsPending (at left dirty) = Unit
IsPending s = reloads (next_events s) s ≡ 1

-- The reloads that a state can still make without a further invalidation.
abbrev pub credit : State → ℕ
credit (at pausing dirty) = 1
credit (at draining dirty) = 1
credit (at phase dirty) = if dirty then 1 else 0

abbrev IsKept : Bool → State → Type 0
IsKept owed s = (owed ≡ false) ⊎ IsPending s

step-IsKept :
    (e : Event) (s : State) (before : Bool)
    → IsKept before s
    → IsKept (owed_by e (step e s).1 before) (step e s).0
unfolding step reloads
step-IsKept invalidated (at listening dirty) before k = inr refl
step-IsKept invalidated (at pausing dirty) before k = inr refl
step-IsKept invalidated (at draining dirty) before k = inr refl
step-IsKept invalidated (at reloading dirty) before k = inr refl
step-IsKept invalidated (at left dirty) before k = inr tt
step-IsKept received (at listening true) before k = inr refl
step-IsKept fired (at pausing dirty) before k = inr refl
step-IsKept drained (at draining dirty) before k = inl refl
step-IsKept reloaded (at reloading true) before k = k
step-IsKept reloaded (at reloading false) before k = k
step-IsKept cancelled (at listening dirty) before k = inr tt
step-IsKept cancelled (at pausing dirty) before k = inr tt
step-IsKept e s before k = k

run-IsKept :
    (es : List Event) (s : State) (before : Bool)
    → IsKept before s
    → IsKept (owed es s before) (run es s)
unfolding run owed
run-IsKept [] s before k = k
run-IsKept (e ∷ es) s before k =
    run-IsKept es (step e s).0 (owed_by e (step e s).1 before) (step-IsKept e s before k)

-- An invalidation adds at most one reload, and each reload takes one.
abbrev call_by : Event → ℕ
call_by invalidated = 1
call_by e = 0

step-credit :
    (e : Event) (s : State)
    → (if (step e s).1 then 1 else 0) + credit (step e s).0 ≤ call_by e + credit s
unfolding step
step-credit invalidated (at listening false) = omega arith
step-credit invalidated (at listening true) = omega arith
step-credit invalidated (at reloading false) = omega arith
step-credit invalidated (at reloading true) = omega arith
step-credit invalidated (at left false) = omega arith
step-credit invalidated (at left true) = omega arith
step-credit received (at listening true) = omega arith
step-credit received (at listening false) = omega arith
step-credit fired (at pausing dirty) = omega arith
step-credit drained (at draining dirty) = omega arith
step-credit reloaded (at reloading true) = omega arith
step-credit reloaded (at reloading false) = omega arith
step-credit cancelled (at listening dirty) = omega arith
step-credit cancelled (at pausing true) = omega arith
step-credit cancelled (at pausing false) = omega arith
step-credit e s = omega arith

calls-cons : (e : Event) (es : List Event) → calls (e ∷ es) ≡ call_by e + calls es
unfolding calls
calls-cons invalidated es = omega arith
calls-cons e es = omega arith

reloads-credit :
    (es : List Event) (s : State) → reloads es s + credit (run es s) ≤ calls es + credit s
unfolding reloads run
reloads-credit [] s = omega arith
reloads-credit (e ∷ es) s =
    omega (arith, reloads-credit es (step e s).0, step-credit e s, calls-cons e es)

-- However invalidations, the timer, reloads and the end of the context come after each other: after an
-- invalidation that no call of Reload has followed, the loop has returned, or left to itself it calls
-- Reload; and Reload is not called more often than invalidate.
pub run-IsPending :
    (es : List Event)
    → ((owed es start false ≡ false) ⊎ IsPending (run es start)) × (reloads es start ≤ calls es)
run-IsPending es = (run-IsKept es start false (inl refl), omega (arith, reloads-credit es start))
