-- ===== src/Tables.antt =====
-- shared/hypertrace_common/hypertrace_common/tables.py: the rows of the tables. A table is the list
-- of its rows in the order of insertion.
use hypertrace.Prelude.{ℕ, String, Bool, Option, List, ℤ}
use hypertrace.Schemas.{Evidence, Mode}

pub record CostRow (N : Type 0) : Type 0 where
  pub time : ℕ
  pub service : String
  pub resource_type : String
  pub unit_rate : N
  pub cost_per_hour : N
  pub cost_per_unit_of_work : Option N

pub record AnomalyRow (N : Type 0) : Type 0 where
  pub id : String
  pub service : String
  pub score : N
  pub classification : String
  pub evidence : Evidence N
  pub status : String
  pub created_at : ℕ
  pub confidence : Option N
  pub baseline_mature : Bool
  pub cost_delta_usd_hr : Option N

-- The fields of `rule_dsl`. An absent field is `none`, an absent flag `false`.
pub record RuleDsl (N : Type 0) : Type 0 where
  pub classifications : Option (List String)
  pub min_cost_per_hour : Option N
  pub service_prefix : Option String
  pub requires_approval : Bool
  pub min_confidence : Option N

pub record PolicyRow (N : Type 0) : Type 0 where
  pub id : String
  pub org_id : String
  pub rule_dsl : RuleDsl N
  pub scope : String
  pub action : String
  pub priority : ℤ

-- The texts that the services write in `actions_log.result`, one constructor for each;
-- `unsupported_action a` is the text `unsupported_action_` followed by a.
pub data ActionResult : Type 0 where
  pending_approval dispatched dispatch_failed : ActionResult
  alert_only_no_action_taken alert_only_low_confidence : ActionResult
  blocked_by_protected_floor blocked_by_global_rate_limit : ActionResult
  blocked_by_per_service_rate_limit : ActionResult
  executed no_op rolled_back failed : ActionResult
  rollback_failed_no_reference rollback_window_expired : ActionResult
  unsupported_action : String → ActionResult

-- `prior_state`: what a rollback restores. `unknown_kind` is an object of any other kind.
pub data PriorState : Type 0 where
  deployment_cpu_limit : String → String → String → Option String → PriorState
  hpa_max_replicas : String → String → ℕ → PriorState
  unknown_kind : String → PriorState

pub record ActionRow : Type 0 where
  pub id : String
  pub anomaly_id : Option String
  pub parent_action_id : Option String
  pub rollback_ref : Option String
  pub action_type : String
  pub mode : Mode
  pub executed_at : ℕ
  pub result : ActionResult
  pub target : Option String
  pub prior_state : Option PriorState
  pub applied_state : Option String
  pub rollback_deadline : Option ℕ
