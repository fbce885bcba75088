-- ===== src/Decision/Handler/Ledger.antt =====
-- What the decision engine decides, as a function of the policy that matched and of the gates in
-- their order, and that `_handle_anomaly` does that on the ledger and on the bus.
pub mod Met
pub mod Outcome
use hypertrace.Prelude.{
  ℕ, ◌+◌, String, ◌≡◌, refl, ap, ◌∙◌, sym, Bool, true, false, ◌||◌, Option, none, some, List, [],
  ◌∷◌, ◌++◌, arith, ◌⊎◌, inl, inr, Option-cases, Bool-cases, if◌then◌else◌,
}
use mathlib.Core.Path.{subst}
use hypertrace.Float.{Float}
use hypertrace.Messaging
use hypertrace.Messaging.{routing_key_remediation, Client}
use hypertrace.Effects.{
  World, Failure, Result, ok, err, value_error, publish_error, pure, gets, or_raise, publish, ◌>>=◌,
}
use hypertrace.Effects.Sending.{Sent, delivered, lost, publish-Sent}
use hypertrace.Schemas.{
  Anomaly, Mode, Reason, RemediationRequest, RemediationAction, AnomalyClassification,
  classification_value, action_of_string,
}
use hypertrace.Tables.{PolicyRow, ActionResult}
use hypertrace.Decision.Authority.{Authority, authority_for}
use hypertrace.Decision.Policy.{is_protected}
use hypertrace.Decision.Matching.{find_matching_policy}
use hypertrace.Decision.Correlation.{Engine, Action, classify}
use hypertrace.Decision.Correlation.Causes.{Cause, classify-Cause}
use hypertrace.Decision.Handler.{
  decision_row, record_action, request, score_confidence, act_with, act_on, decide_matched, decide,
  handle_anomaly, cost_of, reclassify, is_growth, is_alert_only,
}
use hypertrace.Decision.Handler.Reading.{
  State, IsRead, classify-keeps, prepared, conclude, handle_anomaly-eq-conclude,
}

-- A reason to withhold an action: whether it applies, and what the ledger then says.
pub record Gate : Type 0 where
  pub closed : Bool
  pub result : ActionResult
  pub mode : Mode

abbrev pub first_closed : List Gate → Option Gate
first_closed [] = none
first_closed (g ∷ gs) = if g.closed then some g else first_closed gs

abbrev pub is_lowest : Authority → Bool
is_lowest Authority.alert_only = true
is_lowest _ = false

abbrev pub is_middle : Authority → Bool
is_middle Authority.approval = true
is_middle _ = false

abbrev pub alert_gate : RemediationAction → Gate
alert_gate action = record {
  closed = is_alert_only action;
  result = ActionResult.alert_only_no_action_taken;
  mode = Mode.autonomous;
}

-- What is decided of an anomaly: nothing, an action that is not one, an action withheld, or one
-- dispatched under the name that the policy gives it.
pub data Decision : Type 0 where
  ignore refuse : Decision
  withhold : RemediationAction → Gate → Decision
  dispatch : RemediationAction → String → Decision

abbrev pub gated : RemediationAction → String → Option Gate → Decision
gated action name none = dispatch action name
gated action name (some gate) = withhold action gate

module _ {N : Type 0} ⦃f : Float N⦄ where
  abbrev pub floor_gate : List String → Anomaly N → Gate
  floor_gate prefixes m = record {
    closed = is_protected m.service prefixes;
    result = ActionResult.blocked_by_protected_floor;
    mode = Mode.autonomous;
  }

  -- A confidence that earns an alert only, and one that earns approval only, or a policy that
  -- demands it.
  abbrev pub confidence_gates : PolicyRow N → Authority → List Gate
  confidence_gates row a =
      record {
        closed = is_lowest a;
        result = ActionResult.alert_only_low_confidence;
        mode = Mode.autonomous;
      }
      ∷ record {
        closed = is_middle a || row.rule_dsl.requires_approval;
        result = ActionResult.pending_approval;
        mode = Mode.approved;
      }
      ∷ []

  -- The gates in their order: the protected floor, an action that is an alert, and the confidence.
  abbrev pub gates : List String → Anomaly N → PolicyRow N → RemediationAction → List Gate
  gates prefixes m row action =
      floor_gate prefixes m
      ∷ alert_gate action
      ∷ confidence_gates row (authority_for (score_confidence m))

  abbrev pub decision_under :
      List String → Anomaly N → PolicyRow N → Option RemediationAction → Decision
  decision_under prefixes m row none = refuse
  decision_under prefixes m row (some action) =
      gated action row.action (first_closed (gates prefixes m row action))

  abbrev pub decision_by : List String → Anomaly N → Option (PolicyRow N) → Decision
  decision_by prefixes m none = ignore
  decision_by prefixes m (some row) = decision_under prefixes m row (action_of_string row.action)

  -- What is decided of an anomaly with a cause, under the policies.
  abbrev pub decision :
      List String → Anomaly N → List (PolicyRow N) → AnomalyClassification → Decision
  decision prefixes m policies cause =
      if is_growth cause
      then ignore
      else decision_by prefixes m (
          find_matching_policy policies (classification_value cause) m.service (cost_of m)
            (score_confidence m))

  -- A call of the handler does what was decided: the ledger grows by at most the one row of the
  -- decision, and a request that names it goes out for a dispatch, or the call raises.
  pub data Meets (m : Anomaly N) (w : State N)
      : Decision → Result (Unit {0}) × State N → Type 0 where
    ignored :
        (w' : State N)
        → w'.own.actions_log ≡ w.own.actions_log
        → w'.mq.sent ≡ w.mq.sent
        → Meets m w ignore (ok tt, w')
    refused :
        (w' : State N)
        → w'.own.actions_log ≡ w.own.actions_log
        → w'.mq.sent ≡ w.mq.sent
        → Meets m w refuse (err value_error, w')
    withheld :
        (w' : State N) (at : ℕ) (action : RemediationAction) (gate : Gate)
        → w'.own.actions_log
          ≡ w.own.actions_log ++ decision_row (w.uuid w.made) at m action gate.result gate.mode ∷ []
        → w'.mq.sent ≡ w.mq.sent
        → Meets m w (withhold action gate) (ok tt, w')
    dispatched :
        (w' : State N) (at : ℕ) (action : RemediationAction) (name : String)
        → w'.own.actions_log
          ≡ w.own.actions_log
            ++ decision_row (w.uuid w.made) at m action ActionResult.dispatched Mode.autonomous ∷ []
        → w'.mq.sent ≡ w.mq.sent ++ (routing_key_remediation, request (w.uuid w.made) m name) ∷ []
        → Meets m w (dispatch action name) (ok tt, w')
    unsent :
        (w' : State N) (at : ℕ) (action : RemediationAction) (name : String)
        → w'.own.actions_log
          ≡ w.own.actions_log
            ++ decision_row (w.uuid w.made) at m action ActionResult.dispatched Mode.autonomous ∷ []
        → w'.mq.sent ≡ w.mq.sent
        → Meets m w (dispatch action name) (err publish_error, w')
