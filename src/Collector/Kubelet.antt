-- ===== src/Collector/Kubelet.antt =====
-- services/collector/app/kubelet_client.py: the summary of a kubelet. A member of the JSON that may be
-- missing or null is an option; a
-- pod's reference always has its namespace.
use hypertrace.Prelude.{
  ℕ, ◌+◌, String, Option, none, some, get_or, List, [], ◌∷◌, str_eq, if◌then◌else◌,
}
use hypertrace.Float.{Float}

pub record Usage : Type 0 where
  pub usage_nano_cores : Option ℕ
  pub working_set_bytes : Option ℕ
  pub rss_bytes : Option ℕ

pub record Network : Type 0 where
  pub rx_bytes : Option ℕ
  pub tx_bytes : Option ℕ

pub record Pod : Type 0 where
  pub namespace : String
  pub name : Option String
  pub containers : List Usage
  pub network : Network

pub record Summary : Type 0 where
  pub node : Usage
  pub node_network : Network
  pub pods : List Pod

pub record NodeMetrics (N : Type 0) : Type 0 where
  pub cpu_usage_cores : N
  pub memory_working_set_bytes : ℕ
  pub memory_rss_bytes : Option ℕ
  pub network_rx_bytes_total : Option ℕ
  pub network_tx_bytes_total : Option ℕ

pub record PodMetrics (N : Type 0) : Type 0 where
  pub namespace : String
  pub pod : String
  pub cpu_usage_cores : N
  pub memory_working_set_bytes : ℕ
  pub network_rx_bytes_total : Option ℕ
  pub network_tx_bytes_total : Option ℕ

module _ {N : Type 0} ⦃f : Float N⦄ where
  -- `(usage.get("usageNanoCores") or 0) / 1e9`
  unfoldable pub cores : Usage → N
  cores u = f.div (f.of_nat (get_or u.usage_nano_cores 0)) (f.of_nat 1000000000)

  unfoldable pub parse_node_metrics : Summary → NodeMetrics N
  parse_node_metrics s = record {
    cpu_usage_cores = cores s.node;
    memory_working_set_bytes = get_or s.node.working_set_bytes 0;
    memory_rss_bytes = s.node.rss_bytes;
    network_rx_bytes_total = s.node_network.rx_bytes;
    network_tx_bytes_total = s.node_network.tx_bytes;
  }

  -- The loop over a pod's containers.
  unfoldable pub add_up : List Usage → N → ℕ → N × ℕ
  add_up [] cpu_cores mem_bytes = (cpu_cores, mem_bytes)
  add_up (u ∷ rest) cpu_cores mem_bytes =
      add_up rest (f.add cpu_cores (cores u)) (mem_bytes + get_or u.working_set_bytes 0)

  unfoldable pub pod_metrics : Pod → String → PodMetrics N
  pod_metrics p name =
      let (cpu_cores, mem_bytes) = add_up p.containers (f.milli 0) 0 in
      record {
        namespace = p.namespace;
        pod = name;
        cpu_usage_cores = cpu_cores;
        memory_working_set_bytes = mem_bytes;
        network_rx_bytes_total = p.network.rx_bytes;
        network_tx_bytes_total = p.network.tx_bytes;
      }

  -- The loop over the pods, which passes over a pod without a name.
  unfoldable pub parse_pods : List Pod → List (PodMetrics N)
  parse_pods [] = []
  parse_pods (p ∷ rest) =
      let parsed = parse_pods rest in
      elim p.name [
        | none ↦ parsed
        | some name ↦ if str_eq name "" then parsed else pod_metrics p name ∷ parsed
      ]

  unfoldable pub parse_pod_metrics : Summary → List (PodMetrics N)
  parse_pod_metrics s = parse_pods s.pods
