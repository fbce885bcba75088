-- ===== src/Schemas.antt =====
-- shared/hypertrace_common/hypertrace_common/schemas.py: the shapes of the messages. `N` is the type
-- of the floats; a timestamp counts microseconds. `detail` and `evidence` are open JSON objects in
-- the source: the fields that the services write and read are fields here.
mod Enums
pub use Enums.{
  LifecycleEventType, AnomalyClassification, RemediationAction, lifecycle_value,
  classification_value, action_value, action_of_string-action_value,
}
unfoldable pub use Enums.{action_of_string}
use hypertrace.Prelude.{ℕ, String, Bool, Option, Dict, ℤ}

pub record ResourceRef : Type 0 where
  pub cluster : String
  pub namespace : String
  pub node : String
  pub pod : Option String
  pub container : Option String
  pub service : Option String

pub record MetricEvent (N : Type 0) : Type 0 where
  pub timestamp : ℕ
  pub resource : ResourceRef
  pub cpu_usage_cores : N
  pub memory_working_set_bytes : ℕ
  pub memory_rss_bytes : Option ℕ
  pub network_rx_bytes_total : Option ℕ
  pub network_tx_bytes_total : Option ℕ
  pub disk_read_bytes_total : Option ℕ
  pub disk_write_bytes_total : Option ℕ

pub record LifecycleEvent : Type 0 where
  pub timestamp : ℕ
  pub resource : ResourceRef
  pub event_type : LifecycleEventType
  pub reason : String
  pub message : String

pub record CostEvent (N : Type 0) : Type 0 where
  pub timestamp : ℕ
  pub service : String
  pub resource : ResourceRef
  pub resource_type : String
  pub unit_rate : N
  pub cost_per_hour : N
  pub cost_per_unit_of_work : Option N
  pub cpu_cores : Option N

pub record TrafficSample (N : Type 0) : Type 0 where
  pub timestamp : ℕ
  pub service : String
  pub requests_per_second : N

pub record SecuritySignal : Type 0 where
  pub timestamp : ℕ
  pub service : String
  pub rule : String
  pub severity : String

-- The Z-scores that a verdict was reached on.
pub record ScoreEvidence (N : Type 0) : Type 0 where
  pub cost_z : N
  pub cpu_z : N
  pub traffic_z : N

-- `classification_reason`, which the decision engine adds; `no_reason` is the empty object.
pub data Reason : Type 0 where
  traffic_explains recent_deployment no_reason : Reason
  security_rule : String → Reason

pub record Evidence (N : Type 0) : Type 0 where
  pub metric : Option String
  pub value : Option N
  pub bucket : Option String
  pub resource : Option ResourceRef
  pub scores : Option (ScoreEvidence N)
  pub confidence : Option N
  pub baseline_mature : Option Bool
  pub cost_delta_usd_hr : Option N
  pub classification_reason : Option Reason

-- `Anomaly` as published on `anomaly.flagged`, with the confidence beside it.
pub record Anomaly (N : Type 0) : Type 0 where
  pub id : String
  pub service : String
  pub score : N
  pub classification : Option String
  pub evidence : Evidence N
  pub status : String
  pub created_at : ℕ
  pub confidence : Option N

pub data Mode : Type 0 where
  autonomous approved dry_run : Mode

-- A message on `remediation.requested`.
pub record RemediationRequest : Type 0 where
  pub action_id : String
  pub anomaly_id : Option String
  pub service : String
  pub action : String
  pub mode : Option Mode
  pub target_action_id : Option String

-- The shapes that no service uses yet: a baseline, a policy and an entry of the ledger.
pub record Baseline (N : Type 0) : Type 0 where
  pub service : String
  pub metric : String
  pub rolling_mean : N
  pub rolling_stddev : N
  pub day_of_week_profile : Dict N
  pub updated_at : ℕ

-- `Rule` is the open JSON object of a policy.
pub record Policy (Rule : Type 0) : Type 0 where
  pub org_id : String
  pub rule_dsl : Rule
  pub scope : String
  pub action : RemediationAction
  pub priority : ℤ

pub record ActionLogEntry : Type 0 where
  pub id : String
  pub anomaly_id : String
  pub action_type : RemediationAction
  pub executed_at : ℕ
  pub result : String
  pub rollback_ref : Option String
