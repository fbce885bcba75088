-- ===== src/Examples/Serving.antt =====
-- The theorems on the API at a pending and an executed action, two users and a few alerts.
use hypertrace.Prelude.{
  false, ℕ, ◌≡◌, refl, lookup, ◌++◌, select, sort_by, none, some, [], ◌∷◌, All, str_eq, any_of, pos,
}
use hypertrace.Effects.{ok}
use hypertrace.Schemas.{Mode, RemediationAction}
use hypertrace.Tables.{ActionRow, ActionResult}
use hypertrace.Bff.Auth.{claims_of, Crypto, Claims, get_current_user, require_sre}
use hypertrace.Bff.Auth.Access.{gated}
use hypertrace.Bff.Actions.{
  State, Database, approve_action, rollback_action, latest, rollback_request,
}
use hypertrace.Bff.Actions.Approval.{Approved, approve_action-Approved}
use hypertrace.Bff.Actions.Reversal.{Reversed, rollback_action-Reversed}
use hypertrace.Bff.Actions.Repeated.{rollback_action_again}
use hypertrace.Bff.Actions.Approval.{Dispatched}
use hypertrace.Bff.Alerts.{subscribed, started, flagged, sent, run, idle}
use hypertrace.Bff.Alerts.Bounds.{IsBounded, run-IsBounded}
use hypertrace.Bff.Alerts.Served.{Served, since, run-Served}
use hypertrace.Bff.Dashboard.{PolicyIn}
use hypertrace.Bff.Policies.{create_policy, delete_policy, has_policy}
use hypertrace.Bff.Policies.Managed.{delete_policy-create_policy}
use hypertrace.Examples.{world, throttle_policy}

abbrev sre : Claims
sre = record { username = "sre"; role = "sre" }

-- Tokens that never expire, for the one user.
abbrev pub crypto : Crypto
crypto = record {
  check_password = λ p. str_eq p "hypertrace-dev";
  encode = λ c expire. "token";
  decode = λ at token. some (("sub", "sre") ∷ ("role", "sre") ∷ []);
}

abbrev row : ActionRow
row = record {
  id = "action-1";
  anomaly_id = some "anomaly-1";
  parent_action_id = none;
  rollback_ref = none;
  action_type = "throttle";
  mode = Mode.approved;
  executed_at = 7;
  result = ActionResult.pending_approval;
  target = some "shop/cart";
  prior_state = none;
  applied_state = none;
  rollback_deadline = none;
}

abbrev executed_row : ActionRow
executed_row = record row { id = "action-2"; result = ActionResult.executed; executed_at = 9 }

abbrev pub database : Database ℕ
database = record {
  cost_events = [];
  anomalies = [];
  policies = throttle_policy ∷ [];
  actions_log = row ∷ executed_row ∷ [];
}

abbrev before : State ℕ
before = world database

approve_action-Approved_example :
    Approved crypto "token" "anomaly-1" before (approve_action crypto "token" "anomaly-1" before)
approve_action-Approved_example = approve_action-Approved crypto "token" "anomaly-1" before

rollback_action-Reversed_example :
    Reversed crypto "token" "anomaly-1" before (rollback_action crypto "token" "anomaly-1" before)
rollback_action-Reversed_example = rollback_action-Reversed crypto "token" "anomaly-1" before

-- The executed row was rolled back, and the outcome row of that follows it.
abbrev rolled_back_row : ActionRow
rolled_back_row = record row {
  id = "action-3";
  action_type = "rollback";
  result = ActionResult.rolled_back;
  executed_at = 11;
}

abbrev settled : State ℕ
settled = record before {
  own = record before.own { actions_log = before.own.actions_log ++ rolled_back_row ∷ [] };
}

rollback_action_again_example :
    let (r, w) = rollback_action crypto "token" "anomaly-1" settled in
    Dispatched "anomaly-1" "rollback" "shop/cart"
      (some "action-2")
      (some "action-2")
      (λ id. rollback_request id "anomaly-1" "action-2")
      (gated crypto settled)
      w
      r
unfolding latest select sort_by claims_of lookup
rollback_action_again_example =
    rollback_action_again crypto "token" "anomaly-1" sre before.own.actions_log
      (rolled_back_row ∷ []) executed_row settled refl (refl, tt) refl refl refl

abbrev policy : PolicyIn ℕ
policy = record {
  org_id = "default";
  rule_dsl = throttle_policy.rule_dsl;
  scope = "*";
  action = RemediationAction.throttle;
  priority = pos 3;
}

delete_policy-create_policy_example :
    ((delete_policy crypto "token" "id-0" (create_policy crypto "token" policy before).1).0 ≡ ok tt)
    × ((delete_policy crypto "token" "id-0"
          (create_policy crypto "token" policy before).1).1.own.policies
        ≡ before.own.policies)
unfolding has_policy any_of require_sre get_current_user create_policy claims_of lookup
delete_policy-create_policy_example =
    delete_policy-create_policy crypto "token" "token" policy before sre sre refl refl refl

run-IsBounded_example :
    All IsBounded (run (started ∷ subscribed ∷ flagged 5 ∷ sent 0 ∷ []) (idle {M = ℕ})).subscribers
run-IsBounded_example = run-IsBounded (started ∷ subscribed ∷ flagged 5 ∷ sent 0 ∷ [])

run-Served_example :
    All
      (λ s. Served (since s.id 0 false (started ∷ subscribed ∷ flagged 5 ∷ sent 0 ∷ [])) s)
      (run (started ∷ subscribed ∷ flagged 5 ∷ sent 0 ∷ []) (idle {M = ℕ})).subscribers
run-Served_example = run-Served (started ∷ subscribed ∷ flagged 5 ∷ sent 0 ∷ [])
