-- ===== src/Examples/Observing.antt =====
-- The theorems on the collector, the traffic adapter and cost attribution, at one pod.
use hypertrace.Prelude.{ℕ, ◌≡◌, none, some, [], ◌∷◌, arith}
use hypertrace.Float.Decimal.{decimal}
use hypertrace.Messaging
use hypertrace.Schemas.{ResourceRef, MetricEvent}
use hypertrace.Cost.{PricingModel}
use hypertrace.Collector.Resolver.{Api, Resolver, cached, has_key, resolve}
use hypertrace.Collector.Resolver.Stable.{IsDue, resolve-again}
use hypertrace.Collector.Kubelet.{PodMetrics, Summary, Usage, Network}
use hypertrace.Collector.Cycle.{Agent}
use hypertrace.Collector.Cycle.Readings.{Readings}
use hypertrace.Collector.Cycle.Published.{State}
use hypertrace.Examples.{world, pod_ref}

abbrev restarted : ResourceRef
restarted = record pod_ref { pod = some "cart-7d9f-q8" }

abbrev prices : PricingModel ℕ
prices = record { cpu_core_hour = 40; memory_gb_hour = 5 }

abbrev reading : MetricEvent ℕ
reading = record {
  timestamp = 3;
  resource = pod_ref;
  cpu_usage_cores = 250;
  memory_working_set_bytes = 4096;
  memory_rss_bytes = none;
  network_rx_bytes_total = none;
  network_tx_bytes_total = none;
  disk_read_bytes_total = none;
  disk_write_bytes_total = none;
}

-- An API on which every pod belongs to a replica set of the deployment `cart`.
abbrev api : Api
api = record {
  read_pod = λ n namespace pod. some (record { kind = "ReplicaSet"; name = "cart-7d9f" } ∷ []);
  read_replica_set = λ n namespace name. some (record { kind = "Deployment"; name = "cart" } ∷ []);
}

abbrev fresh : Resolver
fresh = record { cache = []; calls = 0 }

-- The pod was looked up at time 0, under another name.
abbrev stale : Resolver
stale = record {
  cache = record { namespace = "shop"; pod = "cart-7d9f-x2"; workload = "web"; stored_at = 0 } ∷ [];
  calls = 2;
}

stale-IsDue : IsDue api 400_000_000 "shop" "cart-7d9f-x2" stale
unfolding cached has_key
stale-IsDue = λ e h. ground arith

resolve-again_example :
    resolve api 500_000_000 "shop" "cart-7d9f-x2"
      (resolve api 400_000_000 "shop" "cart-7d9f-x2" stale).1
    ≡ (
      (resolve api 400_000_000 "shop" "cart-7d9f-x2" stale).0,
      (resolve api 400_000_000 "shop" "cart-7d9f-x2" stale).1,
    )
resolve-again_example =
    resolve-again api 400_000_000 500_000_000 "shop" "cart-7d9f-x2" stale stale-IsDue (omega arith)

abbrev usage : Usage
usage = record {
  usage_nano_cores = some 250000000;
  working_set_bytes = some 4096;
  rss_bytes = none;
}

abbrev quiet : Network
quiet = record { rx_bytes = none; tx_bytes = none }

abbrev summary : Summary
summary = record {
  node = usage;
  node_network = quiet;
  pods =
      record {
        namespace = "shop";
        name = some "cart-7d9f-x2";
        containers = usage ∷ [];
        network = quiet;
      }
      ∷ record { namespace = "shop"; name = none; containers = []; network = quiet }
      ∷ [];
}

abbrev agent : Agent
agent = record { cluster = "kind"; node = "node-1"; api = api; monotonic = λ n. n }

abbrev before : State ℕ
before = world fresh

-- A pod of the workload, as the collector measures it.
abbrev pod_usage : PodMetrics ℕ
pod_usage = record {
  namespace = "shop";
  pod = "cart-7d9f-x2";
  cpu_usage_cores = 250;
  memory_working_set_bytes = 4096;
  network_rx_bytes_total = none;
  network_tx_bytes_total = none;
}
