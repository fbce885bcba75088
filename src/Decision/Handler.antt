-- ===== src/Decision/Handler.antt =====
-- `_record_action` and `_handle_anomaly` of services/decision-policy/app/main.py.
pub mod Dispatch
pub mod Ledger
pub mod Reading
use hypertrace.Prelude.{
  ℕ, String, Bool, true, false, not, ◌&&◌, Option, none, some, List, [], ◌∷◌, ◌++◌, map, str_eq,
  if◌then◌else◌,
}
use hypertrace.Float.{Float}
use hypertrace.Messaging.{routing_key_remediation}
use hypertrace.Effects.{
  Exec, pure, gets, or_raise, modify, now, uuid4, publish, value_error, ◌>>=◌, ◌>>◌,
}
use hypertrace.Schemas.{
  Anomaly, Evidence, Reason, Mode, RemediationRequest, AnomalyClassification, classification_value,
  RemediationAction, action_value, action_of_string,
}
use hypertrace.Tables.{PolicyRow, AnomalyRow, ActionRow, ActionResult}
use hypertrace.Decision.Authority.{Authority, authority_for}
use hypertrace.Decision.Policy.{is_protected}
use hypertrace.Decision.Matching.{find_matching_policy}
use hypertrace.Decision.Correlation.{Engine, Action, classify}

abbrev pub is_growth : AnomalyClassification → Bool
is_growth AnomalyClassification.legitimate_traffic_growth = true
is_growth _ = false

abbrev pub is_alert_only : RemediationAction → Bool
is_alert_only RemediationAction.alert_only = true
is_alert_only _ = false

module _ {N : Type 0} where
  -- The row that `_record_action` inserts.
  abbrev pub decision_row :
      String → ℕ → Anomaly N → RemediationAction → ActionResult → Mode → ActionRow
  decision_row id at m action result mode = record {
    id = id;
    anomaly_id = some m.id;
    parent_action_id = none;
    rollback_ref = none;
    action_type = action_value action;
    mode = mode;
    executed_at = at;
    result = result;
    target = some m.service;
    prior_state = none;
    applied_state = none;
    rollback_deadline = none;
  }

  unfoldable pub record_action :
      Anomaly N → RemediationAction → ActionResult → Mode → Action N String
  record_action m action result mode = do
    id ← uuid4
    at ← now
    modify (λ s. record s {
      actions_log = s.actions_log ++ decision_row id at m action result mode ∷ [];
    })
    pure id

  -- The `UPDATE` of the anomaly's row.
  unfoldable pub reclassify :
      String → String → Evidence N → List (AnomalyRow N) → List (AnomalyRow N)
  reclassify id classification evidence [] = []
  reclassify id classification evidence (r ∷ rows) =
      (if str_eq r.id id
        then record r { classification = classification; evidence = evidence }
        else r)
      ∷ reclassify id classification evidence rows

module _ {N : Type 0} ⦃f : Float N⦄ where
  -- Python's truth of an optional float.
  abbrev pub present : Option N → Option N
  present none = none
  present (some x) = if f.eq x (f.milli 0) then none else some x

  -- `message.get("confidence") or message["evidence"].get("confidence") or 0.0`
  unfoldable pub score_confidence : Anomaly N → N
  score_confidence m = elim (present m.confidence) [
    | some c ↦ c
    | none ↦ elim (present m.evidence.confidence) [ some c ↦ c | none ↦ f.milli 0 ]
  ]

  abbrev pub request : String → Anomaly N → String → RemediationRequest
  request id m action = record {
    action_id = id;
    anomaly_id = some m.id;
    service = m.service;
    action = action;
    mode = some Mode.autonomous;
    target_action_id = none;
  }

  -- What follows the protected floor and the alert-only action, by the authority that was earned.
  unfoldable pub act_with :
      Authority → Anomaly N → PolicyRow N → RemediationAction → Action N (Unit {0})
  act_with Authority.alert_only m row action =
      record_action m action ActionResult.alert_only_low_confidence Mode.autonomous >>= λ _. pure tt
  act_with Authority.approval m row action =
      record_action m action ActionResult.pending_approval Mode.approved >>= λ _. pure tt
  act_with Authority.autonomous m row action =
      if row.rule_dsl.requires_approval
      then (record_action m action ActionResult.pending_approval Mode.approved >>= λ _. pure tt)
      else do
        id ← record_action m action ActionResult.dispatched Mode.autonomous
        publish routing_key_remediation (request id m row.action)

  -- The handler from `rule_dsl, action = matched` on.
  unfoldable pub act_on : List String → Anomaly N → PolicyRow N → Action N (Unit {0})
  act_on prefixes m row = or_raise (action_of_string row.action) value_error >>= λ action.
      if is_protected m.service prefixes
      then (record_action m action ActionResult.blocked_by_protected_floor Mode.autonomous >>= λ _.
          pure tt)
      else if is_alert_only action
      then (record_action m action ActionResult.alert_only_no_action_taken Mode.autonomous >>= λ _.
          pure tt)
      else act_with (authority_for (score_confidence m)) m row action

  abbrev pub cost_of : Anomaly N → N
  cost_of m = elim m.evidence.value [ some v ↦ v | none ↦ f.milli 0 ]

  unfoldable pub decide_matched :
      List String → Anomaly N → Option (PolicyRow N) → Action N (Unit {0})
  decide_matched prefixes m none = pure tt
  decide_matched prefixes m (some row) = act_on prefixes m row

  unfoldable pub decide : List String → Anomaly N → AnomalyClassification → Action N (Unit {0})
  decide prefixes m c = if is_growth c then pure tt else do
    policies ← gets (λ s. s.policies)
    decide_matched prefixes m (
        find_matching_policy policies (classification_value c) m.service (cost_of m)
          (score_confidence m))

  -- `_handle_anomaly`
  unfoldable pub handle_anomaly : List String → Anomaly N → Action N (Unit {0})
  handle_anomaly prefixes m = do
    verdict ← classify m.service m.classification
    modify (λ s. record s {
      anomalies =
          reclassify m.id (classification_value verdict.0)
            (record m.evidence { classification_reason = some verdict.1 }) s.anomalies;
    })
    decide prefixes m verdict.0
