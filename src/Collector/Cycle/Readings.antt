-- ===== src/Collector/Cycle/Readings.antt =====
-- What a cycle of collection publishes, by the summary that the kubelet answered.
use hypertrace.Prelude.{ℕ, ◌+◌, String, ◌≡◌, ◌≢◌, ◌⊎◌, none, some, get_or, List, [], ◌∷◌}
use hypertrace.Float.{Float}
use hypertrace.Messaging.{routing_key_metric}
use hypertrace.Schemas.{MetricEvent}
use hypertrace.Collector.Resolver.{Resolver, resolve}
use hypertrace.Collector.Kubelet.{Usage, Pod, Summary}
use hypertrace.Collector.Cycle.{Agent}

-- The bytes that the containers of a pod hold.
abbrev pub working_sets : List Usage → ℕ
working_sets [] = 0
working_sets (u ∷ us) = get_or u.working_set_bytes 0 + working_sets us

module _ {N : Type 0} ⦃f : Float N⦄ where
  -- A use of the processor in cores, and those of the containers of a pod added to one.
  abbrev pub in_cores : Usage → N
  in_cores u = f.div (f.of_nat (get_or u.usage_nano_cores 0)) (f.of_nat 1_000_000_000)

  abbrev pub cores_from : N → List Usage → N
  cores_from c [] = c
  cores_from c (u ∷ us) = cores_from (f.add c (in_cores u)) us

  -- The message for a named pod, under a name that the resolver gave.
  pub record IsReading (a : Agent) (at : ℕ) (p : Pod) (name : String) (e : MetricEvent N)
      : Type 0 where
    pub tick : ℕ
    pub resolver : Resolver
    pub at_once : e.timestamp ≡ at
    pub cluster : e.resource.cluster ≡ a.cluster
    pub node : e.resource.node ≡ a.node
    pub namespace : e.resource.namespace ≡ p.namespace
    pub pod : e.resource.pod ≡ some name
    pub service : e.resource.service ≡ some (resolve a.api tick p.namespace name resolver).0
    pub cpu : e.cpu_usage_cores ≡ cores_from (f.milli 0) p.containers
    pub memory : e.memory_working_set_bytes ≡ working_sets p.containers
    pub received : e.network_rx_bytes_total ≡ p.network.rx_bytes
    pub transmitted : e.network_tx_bytes_total ≡ p.network.tx_bytes

  -- One message for each pod of the summary that has a name, in their order.
  pub data Readings (a : Agent) (at : ℕ) : List Pod → List (String × MetricEvent N) → Type 0 where
    all_read : Readings a at [] []
    nameless :
        (p : Pod) (ps : List Pod) (events : List (String × MetricEvent N))
        → (p.name ≡ none) ⊎ (p.name ≡ some "")
        → Readings a at ps events
        → Readings a at (p ∷ ps) events
    named :
        (p : Pod) (ps : List Pod) (events : List (String × MetricEvent N)) (name : String)
        (e : MetricEvent N)
        → p.name ≡ some name
        → name ≢ ""
        → IsReading a at p name e
        → Readings a at ps events
        → Readings a at (p ∷ ps) ((routing_key_metric, e) ∷ events)

  -- The message for the node.
  pub record IsNodeReading (a : Agent) (at : ℕ) (s : Summary) (e : MetricEvent N) : Type 0 where
    pub at_once : e.timestamp ≡ at
    pub cluster : e.resource.cluster ≡ a.cluster
    pub node : e.resource.node ≡ a.node
    pub no_pod : e.resource.pod ≡ none
    pub no_service : e.resource.service ≡ none
    pub cpu : e.cpu_usage_cores ≡ in_cores s.node
    pub memory : e.memory_working_set_bytes ≡ get_or s.node.working_set_bytes 0
    pub resident : e.memory_rss_bytes ≡ s.node.rss_bytes
    pub received : e.network_rx_bytes_total ≡ s.node_network.rx_bytes
    pub transmitted : e.network_tx_bytes_total ≡ s.node_network.tx_bytes
