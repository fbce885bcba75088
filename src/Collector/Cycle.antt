-- ===== src/Collector/Cycle.antt =====
-- services/collector/app/main.py: one cycle of collection, `_collect_once`.
pub mod Published
pub mod Readings
use hypertrace.Prelude.{ℕ, ◌+◌, String, Option, none, some, get_or, List, [], ◌∷◌, ◌++◌}
use hypertrace.Float.{Float}
use hypertrace.Messaging.{routing_key_metric}
use hypertrace.Effects.{Exec, Result, ok, err, pure, gets, modify, now, publish, ◌>>=◌, ◌>>◌}
use hypertrace.Schemas.{MetricEvent, ResourceRef}
use hypertrace.Collector.Resolver.{Api, Resolver, resolve, prune}
use hypertrace.Collector.Kubelet.{
  Summary, NodeMetrics, PodMetrics, parse_node_metrics, parse_pod_metrics,
}

abbrev pub Action : Type 0 → Type 0 → Type 0
Action N A = Exec (MetricEvent N) Resolver A

-- `CLUSTER_NAME` and `NODE_NAME` of app/config.py, the API, and the monotonic clock that the resolver
-- reads, by the number of the pod in the cycle.
pub record Agent : Type 0 where
  pub cluster : String
  pub node : String
  pub api : Api
  pub monotonic : ℕ → ℕ

module _ {N : Type 0} where
  unfoldable pub node_event : Agent → ℕ → NodeMetrics N → MetricEvent N
  node_event a at u = record {
    timestamp = at;
    resource = record {
      cluster = a.cluster;
      namespace = "";
      node = a.node;
      pod = none;
      container = none;
      service = none;
    };
    cpu_usage_cores = u.cpu_usage_cores;
    memory_working_set_bytes = u.memory_working_set_bytes;
    memory_rss_bytes = u.memory_rss_bytes;
    network_rx_bytes_total = u.network_rx_bytes_total;
    network_tx_bytes_total = u.network_tx_bytes_total;
    disk_read_bytes_total = none;
    disk_write_bytes_total = none;
  }

  unfoldable pub pod_event : Agent → ℕ → String → String → PodMetrics N → MetricEvent N
  pod_event a at namespace service u = record {
    timestamp = at;
    resource = record {
      cluster = a.cluster;
      namespace = namespace;
      node = a.node;
      pod = some u.pod;
      container = none;
      service = some service;
    };
    cpu_usage_cores = u.cpu_usage_cores;
    memory_working_set_bytes = u.memory_working_set_bytes;
    memory_rss_bytes = none;
    network_rx_bytes_total = u.network_rx_bytes_total;
    network_tx_bytes_total = u.network_tx_bytes_total;
    disk_read_bytes_total = none;
    disk_write_bytes_total = none;
  }

module _ {N : Type 0} ⦃f : Float N⦄ where
  -- The loop over the pods, from the i-th on.
  unfoldable pub publish_pods : Agent → ℕ → ℕ → List (PodMetrics N) → Action N (Unit {0})
  publish_pods a at i [] = pure tt
  publish_pods a at i (u ∷ rest) = do
    r ← gets (λ r. r)
    let resolved = resolve a.api (a.monotonic i) u.namespace u.pod r
    modify (λ _. resolved.1)
    publish routing_key_metric (pod_event a at u.namespace resolved.0 u)
    publish_pods a at (i + 1) rest

  unfoldable pub live_keys : List (PodMetrics N) → List (String × String)
  live_keys [] = []
  live_keys (u ∷ rest) = (u.namespace, u.pod) ∷ live_keys rest

  -- `_collect_once`, from the summary that the kubelet answered on.
  unfoldable pub collect_once : Agent → Summary → Action N (Unit {0})
  collect_once a summary = do
    at ← now
    publish routing_key_metric (node_event a at (parse_node_metrics summary))
    publish_pods a at 0 (parse_pod_metrics summary)
    modify (prune (live_keys (parse_pod_metrics {N = N} summary)))
