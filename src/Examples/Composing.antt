-- ===== src/Examples/Composing.antt =====
-- The services composed, at the workload of the other examples.
use hypertrace.Prelude.{◌≡◌, refl, none, some, [], ◌∷◌, lookup, sort_by, any_of}
use hypertrace.Float.Decimal.{decimal}
use hypertrace.Messaging
use hypertrace.Messaging.{routing_key_anomaly, routing_key_remediation}
use hypertrace.Schemas.{Mode, RemediationRequest, action_of_string}
use hypertrace.Tables.{ActionRow, ActionResult}
use hypertrace.Decision.Policy.{is_protected, policy_matches, protected_namespace_prefixes}
use hypertrace.Decision.Authority.{authority_for}
use hypertrace.Decision.Matching.{first_match, find_matching_policy}
use hypertrace.Decision.Correlation.{classify, recent_deployment, recent_security_signal}
use hypertrace.Decision.Handler.{
  record_action, reclassify, score_confidence, act_with, act_on, decide_matched, decide,
  handle_anomaly,
}
use hypertrace.Executor.Handler.{handle}
use hypertrace.Executor.Handler.Safety as Safety
use hypertrace.Pipeline.Deliveries.{Delivered, as_handler, deliver_all-Delivered}
use hypertrace.Messaging.Consume.{deliver_all}
use hypertrace.Pipeline.Answers.{Answered, handle_anomaly-handle}
use hypertrace.Examples.{world, cart_anomaly}
use hypertrace.Examples.Deciding as Deciding
use hypertrace.Examples.Executing.{kind}

abbrev sent : RemediationRequest
sent = record {
  action_id = "id-0";
  anomaly_id = some "anomaly-1";
  service = "shop/cart";
  action = "throttle";
  mode = some Mode.autonomous;
  target_action_id = none;
}

-- The executor, on the ledger that the decision engine left.
abbrev executor : Safety.State kind
executor = world (record {
  actions_log =
      (handle_anomaly protected_namespace_prefixes cart_anomaly Deciding.before).1.own.actions_log;
  cluster = some "500m";
})

handle_anomaly-handle_example :
    (decided : ActionRow) × (decided.result ≡ ActionResult.dispatched)
    × Answered kind Deciding.before.own.actions_log decided
        (handle kind protected_namespace_prefixes sent executor)
unfolding handle_anomaly decide decide_matched act_on act_with record_action score_confidence
    authority_for find_matching_policy policy_matches is_protected first_match classify
    recent_deployment recent_security_signal sort_by any_of reclassify lookup action_of_string
    Messaging.publish Messaging.attempt Messaging.ensure_channel Messaging.call
handle_anomaly-handle_example =
    handle_anomaly-handle kind protected_namespace_prefixes cart_anomaly Deciding.before sent
      executor refl refl

-- The same request delivered twice, and a rollback that names no row, which raises.
abbrev nameless : RemediationRequest
nameless = record sent { action = "rollback" }

deliver_all-Delivered_example :
    Delivered kind (sent ∷ nameless ∷ sent ∷ []) executor.own.actions_log (
      deliver_all
        (as_handler (handle kind protected_namespace_prefixes))
        (sent ∷ nameless ∷ sent ∷ [])
        executor)
deliver_all-Delivered_example =
    deliver_all-Delivered kind protected_namespace_prefixes (sent ∷ nameless ∷ sent ∷ []) executor
