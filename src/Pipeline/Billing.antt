-- ===== src/Pipeline/Billing.antt =====
-- What the collector measures of a pod, attributed by cost intelligence and named to the executor.
use hypertrace.Prelude.{ℕ, String}
use hypertrace.Float.{Float}
use hypertrace.Schemas.{MetricEvent}
use hypertrace.Collector.Resolver.{Resolver, resolve}
use hypertrace.Collector.Kubelet.{PodMetrics}
use hypertrace.Collector.Cycle.{Agent, pod_event}

module _ {N : Type 0} ⦃f : Float N⦄ where
  -- The message for a pod, by the name that the resolver gives.
  abbrev pub measured : Agent → ℕ → ℕ → String → PodMetrics N → Resolver → MetricEvent N
  measured a at tick namespace u r =
      pod_event a at namespace (resolve a.api tick namespace u.pod r).0 u
