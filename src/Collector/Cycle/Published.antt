-- ===== src/Collector/Cycle/Published.antt =====
-- What a cycle of collection publishes and keeps.
use hypertrace.Prelude.{ℕ, ◌+◌, String, ◌≡◌, refl, sym, ◌∙◌, ap, List, [], ◌∷◌, ◌++◌, arith}
use mathlib.Core.List.{append-nil, append_assoc}
use hypertrace.Float.{Float}
use hypertrace.Messaging
use hypertrace.Messaging.{routing_key_metric}
use hypertrace.Messaging.Publish.{Delivered, publish-Delivered}
use hypertrace.Effects.{◌>>◌, modify, World, Result, ok, err, publish_error}
use hypertrace.Schemas.{MetricEvent}
use hypertrace.Collector.Resolver.{Resolver, resolve, prune}
use hypertrace.Collector.Kubelet.{Summary, PodMetrics, parse_node_metrics, parse_pod_metrics}
use hypertrace.Collector.Cycle.{
  Agent, Action, node_event, pod_event, publish_pods, live_keys, collect_once,
}

abbrev pub State : Type 0 → Type 0
State N = World (MetricEvent N) Resolver

module _ {N : Type 0} where
  -- One message for each pod, in the pods' order, with a name that the resolver gave for its
  -- workload.
  abbrev pub Events : Agent → ℕ → List (PodMetrics N) → List (String × MetricEvent N) → Type 0
  Events a at [] [] = Unit
  Events a at [] (_ ∷ _) = ⊥
  Events a at (u ∷ us) [] = ⊥
  Events a at (u ∷ us) (e ∷ es) =
      ((tick : ℕ) × (r : Resolver) × (e ≡ (
        routing_key_metric,
        pod_event a at u.namespace (resolve a.api tick u.namespace u.pod r).0 u,
      )))
      × Events a at us es

  -- What `publish` makes of an outcome and the client that it leaves.
  abbrev reported :
      Messaging.Outcome (Unit {0}) × Messaging.Client (MetricEvent N) → Action N (Unit {0})
  reported p w =
      let w' = record w { mq = p.1 } in
      elim p.0 [ Messaging.ok _ ↦ (ok tt, w') | Messaging.raised _ ↦ (err publish_error, w') ]

  -- A publish followed by the rest: when the whole returns, the message is out and the rest has
  -- returned.
  publish_then :
      (m : MetricEvent N) (k : Action N (Unit {0})) (w : State N)
      (p : Messaging.Outcome (Unit {0}) × Messaging.Client (MetricEvent N))
      → Delivered routing_key_metric m w.mq p
      → ((reported p >> k) w).0 ≡ ok tt
      → (v : State N) × (v.mq.sent ≡ w.mq.sent ++ (routing_key_metric, m) ∷ [])
        × ((k v).0 ≡ ok tt)
        × ((reported p >> k) w ≡ k v)
  publish_then m k w (Messaging.ok _, c) d h = (record w { mq = c }, d, h, refl)
  publish_then m k w (Messaging.raised _, c) d h = ground arith

  -- A change of the resolver at the end sends nothing.
  then_modify :
      (p : Result (Unit {0}) × State N) (g : Resolver → Resolver) (v : State N)
      → (((λ _. p) >> modify g) v).0 ≡ ok tt
      → (p.0 ≡ ok tt) × ((((λ _. p) >> modify g) v).1.mq.sent ≡ p.1.mq.sent)
  then_modify (ok tt, w) g v h = (refl, refl)
  then_modify (err e, w) g v h = ground arith

module _ {N : Type 0} ⦃f : Float N⦄ where
  publish_pods-Events :
      (a : Agent) (at i : ℕ) (us : List (PodMetrics N)) (w : State N)
      → (publish_pods a at i us w).0 ≡ ok tt
      → (events : List (String × MetricEvent N)) × Events a at us events
        × ((publish_pods a at i us w).1.mq.sent ≡ w.mq.sent ++ events)
  unfolding publish_pods
  publish_pods-Events a at i [] w h = ([], tt, sym (append-nil w.mq.sent))
  publish_pods-Events a at i (u ∷ us) w h =
      let (workload, r) = resolve a.api (a.monotonic i) u.namespace u.pod w.own in
      let w1 : State N = record w { own = r } in
      let m : MetricEvent N = pod_event a at u.namespace workload u in
      let (v, sent, returned, same) =
        publish_then m (publish_pods a at (i + 1) us) w1
          (Messaging.publish routing_key_metric m w.mq)
          (publish-Delivered routing_key_metric m w.mq) h in
      let (events, each, later) = publish_pods-Events a at (i + 1) us v returned in
      (
        (routing_key_metric, m) ∷ events,
        ((a.monotonic i, w.own, refl), each),
        ap (λ (p : Result (Unit {0}) × State N). p.1.mq.sent) same
            ∙ later
            ∙ ap (λ s. s ++ events) sent
            ∙ append_assoc w.mq.sent ((routing_key_metric, m) ∷ []) events,
      )

  -- A cycle that ends without an error has published the node's reading and then one for each pod that
  -- the kubelet named, in its order, and nothing else.
  pub collect_once-Events :
      (a : Agent) (summary : Summary) (w : State N)
      → (collect_once a summary w).0 ≡ ok tt
      → (events : List (String × MetricEvent N)) × Events a
          (w.clock w.reads)
          (parse_pod_metrics summary)
          events
        × ((collect_once a summary w).1.mq.sent
            ≡ w.mq.sent
              ++ (routing_key_metric, node_event a (w.clock w.reads) (parse_node_metrics summary))
                ∷ events)
  unfolding collect_once
  collect_once-Events a summary w h =
      let pods = parse_pod_metrics summary in
      let forget = prune (live_keys pods) in
      let m : MetricEvent N = node_event a (w.clock w.reads) (parse_node_metrics summary) in
      let w1 : State N = record w { reads = w.reads + 1 } in
      let (v, sent, returned, same) =
        publish_then m (publish_pods a (w.clock w.reads) 0 pods >> modify forget) w1
          (Messaging.publish routing_key_metric m w.mq)
          (publish-Delivered routing_key_metric m w.mq) h in
      let (ended, kept) =
        then_modify (publish_pods a (w.clock w.reads) 0 pods v) forget v returned in
      let (events, each, later) = publish_pods-Events a (w.clock w.reads) 0 pods v ended in
      (
        events,
        each,
        ap (λ (p : Result (Unit {0}) × State N). p.1.mq.sent) same
            ∙ kept
            ∙ later
            ∙ ap (λ s. s ++ events) sent
            ∙ append_assoc w.mq.sent ((routing_key_metric, m) ∷ []) events,
      )
