-- ===== src/Tests/Watching.antt =====
-- The loops of the watching sources, run on a few turns.
use xconf.Prelude.{ℕ, ◌≡◌, refl, ◌⊎◌, true, false, none, some, List, [], ◌∷◌, map, arith}
use xconf.Text.{str}
use xconf.Error.{ok, err, external}
use xconf.Adapters.Watch.{serving, following, shortest, notify, stop, Keeps, promise, turns}
use xconf.Adapters.Etcd as Etcd
use xconf.Adapters.Etcd.Laws as EtcdLaws
use xconf.Adapters.Etcd.Laws.{etcd_turns-Keeps}
use xconf.Adapters.Nats as Nats
use xconf.Adapters.Nats.Laws as NatsLaws
use xconf.Adapters.Nats.Laws.{nats_turns-Keeps}
use xconf.Adapters.Kubernetes.Watch as Kube
use xconf.Adapters.Kubernetes.Watch.Laws as KubeLaws
use xconf.Adapters.Kubernetes.Watch.Laws.{kubernetes_turns-Keeps}
use xconf.Adapters.Consul.Watch as C
use xconf.Adapters.Consul.Watch.Laws.{consul_turns-told}

-- The stream breaks, a try fails, the next one opens stream 2, on which an event comes.
abbrev etcd_rounds : List Etcd.Round
etcd_rounds =
    (record { waited = Etcd.done; served = Etcd.response false none false 0 })
    ∷ (record {
      waited =
          Etcd.fired
            (record {
              reply = err (external 1);
              late = none;
              number = 2;
              registration = Etcd.expired;
            })
            false;
      served = Etcd.tick;
    })
    ∷ (record {
      waited =
          Etcd.fired
            (record {
              reply = ok (some (record { header = some 7; entries = [] }));
              late = none;
              number = 2;
              registration = Etcd.answered none (some (none, true));
            })
            false;
      served = Etcd.response true none false 1;
    })
    ∷ []

etcd_calls :
    (turns Etcd.turn etcd_rounds (serving 1 shortest)).1
    ≡ stop 1 ∷ notify ∷ notify ∷ notify ∷ notify ∷ []
unfolding turns Etcd.turn
etcd_calls = refl

etcd_turns_example :
    Keeps
      (turns Etcd.turn etcd_rounds (serving 1 shortest))
      (turns promise (map EtcdLaws.seen etcd_rounds) (following 1))
etcd_turns_example = etcd_turns-Keeps etcd_rounds 1 shortest (omega arith) (omega arith)

-- The channel closes, a watcher comes with an error, and the context ends.
abbrev nats_rounds : List Nats.Round
nats_rounds =
    (record { waited = Nats.done; served = Nats.update false false })
    ∷ (record { waited = Nats.fired (some (external 1)) (some 2); served = Nats.tick })
    ∷ (record { waited = Nats.done; served = Nats.tick })
    ∷ []

nats_calls :
    (turns Nats.turn nats_rounds (serving 1 shortest)).1 ≡ stop 1 ∷ notify ∷ stop 2 ∷ notify ∷ []
unfolding turns Nats.turn
nats_calls = refl

nats_turns_example :
    Keeps
      (turns Nats.turn nats_rounds (serving 1 shortest))
      (turns promise (map NatsLaws.seen nats_rounds) (following 1))
nats_turns_example = nats_turns-Keeps nats_rounds 1 shortest (omega arith) (omega arith)

-- An event of another object, one without a name, and a watch that opens as the context ends.
abbrev kube_rounds : List Kube.Round
kube_rounds =
    (record { waited = Kube.done; served = Kube.event true Kube.modified (ok (str "b")) })
    ∷ (record { waited = Kube.done; served = Kube.event true Kube.added (err (external 1)) })
    ∷ (record {
      waited =
          Kube.fired (ok (some (str "9")))
            (record { failure = none; late = none; watcher = some 2 }) true;
      served = Kube.tick;
    })
    ∷ []

kube_calls :
    (turns (Kube.turn (str "a")) kube_rounds (serving 1 shortest)).1 ≡ stop 1 ∷ notify ∷ stop 2 ∷ []
unfolding turns Kube.turn
kube_calls = refl

kubernetes_turns_example :
    Keeps
      (turns (Kube.turn (str "a")) kube_rounds (serving 1 shortest))
      (turns promise (map (KubeLaws.seen (str "a")) kube_rounds) (following 1))
kubernetes_turns_example =
    kubernetes_turns-Keeps (str "a") kube_rounds 1 shortest (omega arith) (omega arith)

-- A query that answers with an index.
abbrev answering : ℕ → C.Round
answering n = record {
  limited = none;
  reply = ok ([], some (record { filtered = false; last_index = n }));
  late = none;
  cancelled = false;
  left = false;
}

abbrev failing : C.Round
failing = record {
  limited = none;
  reply = err (external 1);
  late = none;
  cancelled = false;
  left = false;
}

-- The index goes back from 9 to 5 after a failure.
consul_turns_example :
    ((turns (C.turn 100) (answering 9 ∷ failing ∷ []) (C.asking 9 shortest false)).0 ≡ C.ended)
    ⊎ ((C.turn 100
          (answering 5)
          (turns (C.turn 100) (answering 9 ∷ failing ∷ []) (C.asking 9 shortest false)).0).1
        ≡ notify ∷ [])
unfolding C.query
consul_turns_example =
    consul_turns-told 100 9 5 9 shortest false (answering 9) (failing ∷ []) (answering 5)
      (omega arith) (omega arith) (omega arith)
      (refl, refl, (record { filtered = false; last_index = 9 }, refl, refl))
      ((external 1, refl), tt)
      (refl, refl, (record { filtered = false; last_index = 5 }, refl, refl))
