-- ===== src/Runtime/Steps/Laws.antt =====
-- What holds of the runtime after any steps.
use mathlib.Core.Path.{subst}
use mathlib.Core.Option.{some-injective}
use xconf.Prelude.{
  ℕ, ◌≡◌, refl, sym, inl, inr, ◌⊎◌, Bool, true, false, ◌||◌, none, some, List, [], ◌∷◌, ◌++◌, arith,
  Bool-cases, ◌==◌, All,
}
use xconf.Error.{Error, Result, ok, err}
use xconf.Loader.{Snapshot}
use xconf.Runtime.{
  Event, Channel, Runtime, publish, subscribe, without, numbered, unsubscribe, emptied, receive,
  shut_down,
}
use xconf.Runtime.Commit.{Comparison, is_unchanged, commit}
use xconf.Runtime.Steps.{
  Step, Steps, begin, finish, join, leave, take, cancel, shut, none_yet, then_one, opened,
}

module _ {Snap : Type 0} where
  -- The predicate holds of every event that waits in a channel.
  abbrev AllCarry : (Event Snap → Type 0) → List (Channel Snap) → Type 0
  AllCarry Q = All (λ ch. (e : Event Snap) → ch.slot ≡ some e → Q e)

  module _ (Q : Event Snap → Type 0) where
    publish-AllCarry :
        (e : Event Snap) (chs : List (Channel Snap)) → Q e → AllCarry Q (publish e chs)
    unfolding publish
    publish-AllCarry e [] h = tt
    publish-AllCarry e (ch ∷ chs) h = (λ f g. subst Q (cc) h, publish-AllCarry e chs h)

    without-AllCarry :
        (n : ℕ) (chs : List (Channel Snap)) → AllCarry Q chs → AllCarry Q (without n chs)
    unfolding without
    without-AllCarry n [] a = tt
    without-AllCarry n (ch ∷ chs) a = elim (Bool-cases (ch.id == n)) [
      | inl hit ↦ rw hit (without-AllCarry n chs a.1)
      | inr miss ↦ rw miss (a.0, without-AllCarry n chs a.1)
    ]

    numbered-AllCarry :
        (n : ℕ) (chs : List (Channel Snap)) → AllCarry Q chs → AllCarry Q (numbered n chs)
    unfolding numbered
    numbered-AllCarry n [] a = tt
    numbered-AllCarry n (ch ∷ chs) a = elim (Bool-cases (ch.id == n)) [
      | inl hit ↦ rw hit (a.0, numbered-AllCarry n chs a.1)
      | inr miss ↦ rw miss (numbered-AllCarry n chs a.1)
    ]

    emptied-AllCarry :
        (n : ℕ) (chs : List (Channel Snap)) → AllCarry Q chs → AllCarry Q (emptied n chs)
    unfolding emptied
    emptied-AllCarry n [] a = tt
    emptied-AllCarry n (ch ∷ chs) a = elim (Bool-cases (ch.id == n)) [
      | inl hit ↦ rw hit (λ e f. cc, emptied-AllCarry n chs a.1)
      | inr miss ↦ rw miss (a.0, emptied-AllCarry n chs a.1)
    ]

    append-AllCarry :
        (chs more : List (Channel Snap))
        → AllCarry Q chs
        → AllCarry Q more
        → AllCarry Q (chs ++ more)
    append-AllCarry [] more a b = b
    append-AllCarry (ch ∷ chs) more a b = (a.0, append-AllCarry chs more a.1 b)

  AllCarry-map :
      (P Q : Event Snap → Type 0) (chs : List (Channel Snap))
      → ((e : Event Snap) → P e → Q e)
      → AllCarry P chs
      → AllCarry Q chs
  AllCarry-map P Q [] f a = tt
  AllCarry-map P Q (ch ∷ chs) f a = (λ e h. f e (a.0 e h), AllCarry-map P Q chs f a.1)

  -- An event with the current snapshot, and with an error only if the last reload failed.
  abbrev IsLatest : Runtime Snap → Event Snap → Type 0
  IsLatest r e = (e.snapshot ≡ r.current) × (r.failed ≡ false → e.error ≡ none)

-- A closed runtime was cancelled and has no subscribers; what waits for a subscriber is the latest; and
-- what waits in a channel that is closed has a snapshot with the property.
pub record IsValid {Snap : Type 0} (P : Snap → Type 0) (r : Runtime Snap) : Type 0 where
  pub stopped : r.closed ≡ true → r.cancelled ≡ true
  pub no_subscribers : r.closed ≡ true → r.subscribers ≡ []
  pub latest : AllCarry (IsLatest r) r.subscribers
  pub left_behind : AllCarry (λ e. P e.snapshot) r.ended

module _ {Snap : Type 0} (P : Snap → Type 0) (r : Runtime Snap) where
  running-IsValid :
      r.closed ≡ false
      → AllCarry (IsLatest r) r.subscribers
      → AllCarry (λ e. P e.snapshot) r.ended
      → IsValid P r
  running-IsValid going a b = record {
    stopped = λ h. cc;
    no_subscribers = λ h. cc;
    latest = a;
    left_behind = b;
  }

  -- What waits for the subscribers, when they leave.
  leaving :
      (chs : List (Channel Snap))
      → P r.current
      → AllCarry (IsLatest r) chs
      → AllCarry (λ e. P e.snapshot) chs
  leaving chs h a = AllCarry-map (IsLatest r) (λ e. P e.snapshot) chs (λ e l. subst P (sym l.0) h) a

  not_closed : (r.closed || r.cancelled) ≡ false → r.closed ≡ false
  not_closed h = ground arith

  subscribe-IsValid : (n : ℕ) (done : Bool) → IsValid P r → IsValid P (subscribe n done r)
  unfolding subscribe
  subscribe-IsValid n done v = elim (Bool-cases (r.closed || r.cancelled || done)) [
    | inl off ↦ rw off (record {
      stopped = v.stopped;
      no_subscribers = v.no_subscribers;
      latest = v.latest;
      left_behind = (λ e f. cc, v.left_behind);
    })
    | inr on ↦ rw on (record {
      stopped = v.stopped;
      no_subscribers = λ h. ground arith;
      latest = (λ e f. subst (IsLatest r) (some-injective _ e f) (refl, λ h. refl), v.latest);
      left_behind = v.left_behind;
    })
  ]

  unsubscribe-IsValid : (n : ℕ) → P r.current → IsValid P r → IsValid P (unsubscribe n r)
  unfolding unsubscribe
  unsubscribe-IsValid n h v = record {
    stopped = v.stopped;
    no_subscribers = λ c. rw (v.no_subscribers c) (unfold without in refl);
    latest = without-AllCarry (IsLatest r) n r.subscribers v.latest;
    left_behind =
        append-AllCarry (λ e. P e.snapshot) (numbered n r.subscribers) r.ended
          (numbered-AllCarry (λ e. P e.snapshot) n r.subscribers (leaving r.subscribers h v.latest))
          v.left_behind;
  }

  receive-IsValid : (n : ℕ) → IsValid P r → IsValid P (receive n r)
  unfolding receive
  receive-IsValid n v = record {
    stopped = v.stopped;
    no_subscribers = λ c. rw (v.no_subscribers c) (unfold emptied in refl);
    latest = emptied-AllCarry (IsLatest r) n r.subscribers v.latest;
    left_behind = emptied-AllCarry (λ e. P e.snapshot) n r.ended v.left_behind;
  }

  shut_down-IsValid : r.cancelled ≡ true → P r.current → IsValid P r → IsValid P (shut_down r)
  unfolding shut_down
  shut_down-IsValid c h v = record {
    stopped = λ x. c;
    no_subscribers = λ x. refl;
    latest = tt;
    left_behind =
        append-AllCarry (λ e. P e.snapshot) r.subscribers r.ended (leaving r.subscribers h v.latest)
          v.left_behind;
  }

module _ {Baked Validation Report V : Type 0} (c : Comparison Baked Validation V) where
  module _ (P : Snapshot Baked Validation Report → Type 0)
      (r : Runtime (Snapshot Baked Validation Report)) where
    commit_err-IsValid :
        (e : Error)
        → (r.closed || r.cancelled) ≡ false
        → IsValid P r
        → IsValid P (commit c r (err e)).0
    unfolding commit
    commit_err-IsValid e h v = rw h (
        running-IsValid P _ (not_closed P r h) (publish-AllCarry _ _ r.subscribers (refl, λ f. cc))
          v.left_behind)

    commit_ok-IsValid :
        (s : Snapshot Baked Validation Report)
        → (r.closed || r.cancelled) ≡ false
        → IsValid P r
        → IsValid P (commit c r (ok s)).0
    unfolding commit
    commit_ok-IsValid s h v = elim (Bool-cases (is_unchanged c r.current s)) [
      | inl eq ↦ elim (Bool-cases r.failed) [
        | inl recovered ↦
            rw (h, eq, recovered)
              (running-IsValid P _ (not_closed P r h)
                (publish-AllCarry _ _ r.subscribers (refl, λ f. refl)) v.left_behind)
        | inr healthy ↦
            rw (h, eq, healthy)
              (running-IsValid P _ (not_closed P r h)
                (AllCarry-map (IsLatest r) _ r.subscribers (λ e l. (l.0, λ f. l.1 healthy))
                  v.latest)
                v.left_behind)
      ]
      | inr new ↦
          rw (h, new)
            (running-IsValid P _ (not_closed P r h)
              (publish-AllCarry _ _ r.subscribers (refl, λ f. refl)) v.left_behind)
    ]

    commit-IsValid :
        (built : Result (Snapshot Baked Validation Report))
        → IsValid P r
        → IsValid P (commit c r built).0
    unfolding commit
    commit-IsValid built v = elim (Bool-cases (r.closed || r.cancelled)) [
      | inl off ↦ stopped_already built off
      | inr on ↦ running built on
    ]
      where
        stopped_already :
            (b : Result (Snapshot Baked Validation Report))
            → (r.closed || r.cancelled) ≡ true
            → IsValid P (commit c r b).0
        stopped_already (ok s) h = rw h v
        stopped_already (err e) h = rw h v

        running :
            (b : Result (Snapshot Baked Validation Report))
            → (r.closed || r.cancelled) ≡ false
            → IsValid P (commit c r b).0
        running (ok s) h = commit_ok-IsValid s h v
        running (err e) h = commit_err-IsValid e h v

  module _ (P : Snapshot Baked Validation Report → Type 0) where
    Step-IsValid :
        {r q : Runtime (Snapshot Baked Validation Report)}
        → Step c r q
        → P r.current
        → IsValid P r
        → IsValid P q
    Step-IsValid {r} (begin free e) h v = subst (IsValid P) (sym e) (record {
      stopped = v.stopped;
      no_subscribers = v.no_subscribers;
      latest = v.latest;
      left_behind = v.left_behind;
    })
    Step-IsValid {r} (finish built held e) h v =
        let w = commit-IsValid P r built v in
        subst (IsValid P) (sym e) (record {
          stopped = w.stopped;
          no_subscribers = w.no_subscribers;
          latest = w.latest;
          left_behind = w.left_behind;
        })
    Step-IsValid {r} (join n done e) h v =
        subst (IsValid P) (sym e) (subscribe-IsValid P r n done v)
    Step-IsValid {r} (leave n e) h v = subst (IsValid P) (sym e) (unsubscribe-IsValid P r n h v)
    Step-IsValid {r} (take n e) h v = subst (IsValid P) (sym e) (receive-IsValid P r n v)
    Step-IsValid {r} (cancel e) h v = subst (IsValid P) (sym e) (record {
      stopped = λ x. refl;
      no_subscribers = v.no_subscribers;
      latest = v.latest;
      left_behind = v.left_behind;
    })
    Step-IsValid {r} (shut done e) h v = subst (IsValid P) (sym e) (shut_down-IsValid P r done h v)

  -- The snapshot was current before or after one of the steps.
  pub WasCurrent :
      {r q : Runtime (Snapshot Baked Validation Report)}
      → Steps c r q
      → Snapshot Baked Validation Report
      → Type 0
  WasCurrent {r} none_yet s = s ≡ r.current
  WasCurrent {r} {q} (then_one ss st) s = WasCurrent ss s ⊎ (s ≡ q.current)

  current-WasCurrent :
      {r q : Runtime (Snapshot Baked Validation Report)} (ss : Steps c r q)
      → WasCurrent ss q.current
  unfolding WasCurrent
  current-WasCurrent none_yet = refl
  current-WasCurrent (then_one ss st) = inr refl

  IsValid-map :
      (P Q : Snapshot Baked Validation Report → Type 0)
      (r : Runtime (Snapshot Baked Validation Report))
      → ((s : Snapshot Baked Validation Report) → P s → Q s)
      → IsValid P r
      → IsValid Q r
  IsValid-map P Q r f v = record {
    stopped = v.stopped;
    no_subscribers = v.no_subscribers;
    latest = v.latest;
    left_behind =
        AllCarry-map (λ e. P e.snapshot) (λ e. Q e.snapshot) r.ended (λ e. f e.snapshot)
          v.left_behind;
  }

  Steps-IsValid :
      {r q : Runtime (Snapshot Baked Validation Report)} (ss : Steps c r q)
      → IsValid (λ s. s ≡ r.current) r
      → IsValid (WasCurrent ss) q
  unfolding WasCurrent
  Steps-IsValid none_yet v = v
  Steps-IsValid {r} {q} (then_one ss st) v =
      IsValid-map (WasCurrent ss) _ q (λ s. inl)
        (Step-IsValid (WasCurrent ss) st (current-WasCurrent ss) (Steps-IsValid ss v))

  -- Whatever reloads, subscribers, cancellation and shutdown do, and in whatever order: a runtime
  -- that is closed was cancelled and has no subscribers; every event that waits for a subscriber carries
  -- the current snapshot, and an error only if the last reload failed; and what still waits in a channel
  -- that is closed carries a snapshot that was current at some time.
  pub opened-IsValid :
      (s : Snapshot Baked Validation Report) (q : Runtime (Snapshot Baked Validation Report))
      (ss : Steps c (opened s) q)
      → IsValid (WasCurrent ss) q
  unfolding opened
  opened-IsValid s q ss =
      Steps-IsValid ss
        (record { stopped = λ h. cc; no_subscribers = λ h. refl; latest = tt; left_behind = tt })
