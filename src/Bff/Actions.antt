-- ===== src/Bff/Actions.antt =====
-- services/api-bff/app/main.py: the endpoints that write to the ledger of actions and dispatch
-- remediations, `approve_action` and `rollback_action`.
pub mod Approval
pub mod Reversal
pub mod Latest
pub mod Repeated
use hypertrace.Prelude.{
  ℕ, String, Bool, true, false, ◌&&◌, Option, none, some, get_or, List, [], ◌∷◌, ◌++◌, str_eq,
  select, first, sort_by, leb, if◌then◌else◌,
}
use hypertrace.Messaging
use hypertrace.Messaging.{Outcome, Client, routing_key_remediation}
use hypertrace.Effects.{
  World, Result, ok, err, Exec, pure, raise, gets, or_raise, modify, now, uuid4, http_error, ◌>>=◌,
  ◌>>◌,
}
use hypertrace.Schemas.{Mode, RemediationRequest}
use hypertrace.Tables.{CostRow, AnomalyRow, PolicyRow, ActionRow, ActionResult}
use hypertrace.Bff.Auth.{Crypto, require_sre}

-- The tables that the endpoints read and write.
pub record Database (N : Type 0) : Type 0 where
  pub cost_events : List (CostRow N)
  pub anomalies : List (AnomalyRow N)
  pub policies : List (PolicyRow N)
  pub actions_log : List ActionRow

abbrev pub State : Type 0 → Type 0
State N = World RemediationRequest (Database N)

abbrev pub Action : Type 0 → Type 0 → Type 0
Action N A = Exec RemediationRequest (Database N) A

-- `ActionDispatched`
pub record ActionDispatched : Type 0 where
  pub action_id : String
  pub status : String

abbrev pub is_pending : ActionResult → Bool
is_pending ActionResult.pending_approval = true
is_pending _ = false

abbrev pub is_executed : ActionResult → Bool
is_executed ActionResult.executed = true
is_executed _ = false

abbrev pub is_about : String → Option String → Bool
is_about anomaly_id none = false
is_about anomaly_id (some id) = str_eq id anomaly_id

-- `ORDER BY executed_at DESC`
abbrev pub is_later : ActionRow → ActionRow → Bool
is_later a b = leb b.executed_at a.executed_at

-- The row that the endpoints look up: the latest one of an anomaly with a given result.
unfoldable pub latest : (ActionResult → Bool) → String → List ActionRow → Option ActionRow
latest has_result anomaly_id rows =
    first (
      sort_by is_later (select (λ r. is_about anomaly_id r.anomaly_id && has_result r.result) rows))

-- The row that `_append_action` inserts.
abbrev pub appended :
    String
    → ℕ
    → Option String
    → Option String
    → String
    → ActionResult
    → String
    → Option String
    → ActionRow
appended id at anomaly_id parent_action_id action_type result service rollback_ref = record {
  id = id;
  anomaly_id = anomaly_id;
  parent_action_id = parent_action_id;
  rollback_ref = rollback_ref;
  action_type = action_type;
  mode = Mode.approved;
  executed_at = at;
  result = result;
  target = some service;
  prior_state = none;
  applied_state = none;
  rollback_deadline = none;
}

abbrev pub approval_request : String → String → String → String → RemediationRequest
approval_request id anomaly_id service action = record {
  action_id = id;
  anomaly_id = some anomaly_id;
  service = service;
  action = action;
  mode = some Mode.approved;
  target_action_id = none;
}

abbrev pub rollback_request : String → String → String → RemediationRequest
rollback_request id anomaly_id target = record {
  action_id = id;
  anomaly_id = some anomaly_id;
  service = "";
  action = "rollback";
  mode = none;
  target_action_id = some target;
}

module _ {N : Type 0} where
  unfoldable pub append_action :
      Option String
      → Option String
      → String
      → ActionResult
      → String
      → Option String
      → Action N String
  append_action anomaly_id parent_action_id action_type result service rollback_ref = do
    id ← uuid4
    at ← now
    modify (λ s. record s {
      actions_log =
          s.actions_log
          ++ appended id at anomaly_id parent_action_id action_type result service rollback_ref
            ∷ [];
    })
    pure id

  -- The handler of a publish that raised.
  unfoldable pub dispatch_failure :
      String → String → String → RemediationRequest → Action N (Unit {0})
  dispatch_failure action_id service action_type message =
      append_action message.anomaly_id (some action_id) action_type ActionResult.dispatch_failed
        service none
      >> raise (http_error 503)

  -- What follows the publish, by its outcome and the client that it leaves.
  unfoldable pub after_publish :
      String
      → String
      → String
      → RemediationRequest
      → State N
      → Outcome (Unit {0}) × Client RemediationRequest
      → Result (Unit {0}) × State N
  after_publish action_id service action_type message w (Messaging.ok _, c) =
      (ok tt, record w { mq = c })
  after_publish action_id service action_type message w (Messaging.raised _, c) =
      dispatch_failure action_id service action_type message (record w { mq = c })

  unfoldable pub publish_or_fail :
      String → String → String → RemediationRequest → Action N (Unit {0})
  publish_or_fail action_id service action_type message w =
      after_publish action_id service action_type message w
        (Messaging.publish routing_key_remediation message w.mq)

  -- The service of an anomaly, the empty text when its row is gone.
  unfoldable pub service_of : String → List (AnomalyRow N) → String
  service_of anomaly_id [] = ""
  service_of anomaly_id (r ∷ rows) =
      if str_eq r.id anomaly_id then r.service else service_of anomaly_id rows

  unfoldable pub approve : String → ActionRow → Action N ActionDispatched
  approve anomaly_id row = do
    service ← gets (λ s. service_of anomaly_id s.anomalies)
    id ←
        append_action (some anomaly_id) (some row.id) row.action_type ActionResult.dispatched
          service none
    publish_or_fail id service row.action_type
        (approval_request id anomaly_id service row.action_type)
    pure (record { action_id = id; status = "dispatched" })

  -- The endpoint behind its gate.
  unfoldable pub approve_gated : String → Action N ActionDispatched
  approve_gated anomaly_id = do
    found ← gets (λ s. latest is_pending anomaly_id s.actions_log)
    row ← or_raise found (http_error 404)
    approve anomaly_id row

  unfoldable pub approve_action : Crypto → String → String → Action N ActionDispatched
  approve_action k token anomaly_id = require_sre k token >> approve_gated anomaly_id

  unfoldable pub roll_back : String → ActionRow → Action N ActionDispatched
  roll_back anomaly_id row = do
    let service = get_or row.target ""
    id ←
        append_action (some anomaly_id) (some row.id) "rollback" ActionResult.dispatched service
          (some row.id)
    publish_or_fail id service "rollback" (rollback_request id anomaly_id row.id)
    pure (record { action_id = id; status = "dispatched" })

  unfoldable pub roll_back_gated : String → Action N ActionDispatched
  roll_back_gated anomaly_id = do
    found ← gets (λ s. latest is_executed anomaly_id s.actions_log)
    row ← or_raise found (http_error 404)
    roll_back anomaly_id row

  unfoldable pub rollback_action : Crypto → String → String → Action N ActionDispatched
  rollback_action k token anomaly_id = require_sre k token >> roll_back_gated anomaly_id
