-- ===== src/Collector/Events.antt =====
-- services/collector/app/k8s_events.py: which Kubernetes events become lifecycle events.
use hypertrace.Prelude.{
  ℕ, String, Option, none, some, get_or, or_else, [], ◌∷◌, Dict, lookup, str_eq, if◌then◌else◌,
}
use hypertrace.Schemas.{LifecycleEvent, LifecycleEventType}

-- The parts of an event of the Kubernetes API that are read.
pub record KubernetesEvent : Type 0 where
  pub reason : Option String
  pub message : Option String
  pub kind : String
  pub name : String
  pub namespace : Option String
  pub last_timestamp : Option ℕ
  pub event_time : Option ℕ
  pub first_timestamp : Option ℕ

-- `_REASON_TO_TYPE`
abbrev pub reason_to_type : Dict LifecycleEventType
reason_to_type =
    ("Started", LifecycleEventType.pod_created)
    ∷ ("Killing", LifecycleEventType.pod_deleted)
    ∷ ("BackOff", LifecycleEventType.pod_restarted)
    ∷ ("OOMKilling", LifecycleEventType.pod_oom_killed)
    ∷ ("ScalingReplicaSet", LifecycleEventType.deployment_scaled)
    ∷ ("SuccessfulRescale", LifecycleEventType.hpa_scaled)
    ∷ []

-- `namespace or "default"`
abbrev pub or_default : Option String → String
or_default none = "default"
or_default (some s) = if str_eq s "" then "default" else s

-- The event that an item of the stream leads to, if any.
unfoldable pub lifecycle_event : String → String → KubernetesEvent → Option LifecycleEvent
lifecycle_event cluster node raw = elim (lookup (get_or raw.reason "") reason_to_type) [
  | none ↦ none
  | some event_type ↦
      elim (or_else raw.last_timestamp (or_else raw.event_time raw.first_timestamp)) [
        | none ↦ none
        | some timestamp ↦ some (record {
          timestamp = timestamp;
          resource = record {
            cluster = cluster;
            namespace = or_default raw.namespace;
            node = node;
            pod = if str_eq raw.kind "Pod" then some raw.name else none;
            container = none;
            service = none;
          };
          event_type = event_type;
          reason = get_or raw.reason "";
          message = get_or raw.message "";
        })
      ]
]
