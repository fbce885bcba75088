-- ===== src/Examples/Trailing.antt =====
-- A spike that the detector flags, that the engine leaves pending, a person approves and the
-- executor throttles.
use hypertrace.Prelude.{
  false, map, sort_by, any_of, select, count_if, lookup, show, ℕ, ◌≡◌, refl, none, some, List, [],
  ◌∷◌,
}
use mathlib.Core.List.{Memᴰ}
use hypertrace.Float.Decimal.{decimal, decimal-IsOrdered}
use hypertrace.Schemas.{Anomaly, AnomalyClassification, Mode, RemediationRequest}
use hypertrace.Tables.{ActionRow, ActionResult, AnomalyRow, PriorState}
use hypertrace.Behaviour.Handler.{
  CostMessage, Reading, anomaly_of, handle_cost, handle_cpu, cpu_value, assess, flag_if,
  flag_anomaly, detected_class,
}
use hypertrace.Behaviour.Handler.Flagging.{assessed}
use hypertrace.Behaviour.Baselines.{
  load_profile, upsert, cell_at, save_profile, mature_score, learn_into, score_and_learn,
}
use hypertrace.Behaviour.Stats.{to_dict, from_dict, update, stddev, z_score}
use hypertrace.Behaviour.Confidence.{
  confidence, clamp, peak, magnitude, decoupling, maturity, corroboration_none,
}
use hypertrace.Behaviour.Detection.{
  evaluate_condition, has_moved, should_learn, bucket_key, weekday, hour,
}
use hypertrace.Float.{max, min}
use hypertrace.Messaging
use hypertrace.Messaging.{routing_key_remediation}
use hypertrace.Bff.Actions as Api
use hypertrace.Bff.Auth.{require_sre, get_current_user, claims_of}
use hypertrace.Bff.Actions.{
  approve_action, approve_gated, latest, approve, append_action, publish_or_fail, after_publish,
  service_of,
}
use hypertrace.Decision.Policy.{is_protected, policy_matches, protected_namespace_prefixes}
use hypertrace.Decision.Authority.{authority_for}
use hypertrace.Decision.Matching.{first_match, find_matching_policy}
use hypertrace.Decision.Correlation.{classify, recent_deployment, recent_security_signal}
use hypertrace.Decision.Handler.{
  record_action, reclassify, score_confidence, act_with, act_on, decide_matched, decide,
  handle_anomaly,
}
use hypertrace.Schemas.{action_of_string}
use hypertrace.Executor.Service.{split_service}
use hypertrace.Executor.Service as Floor
use hypertrace.Executor.Actions.{throttle, throttle_deployment, throttle_container}
use hypertrace.Executor.Limits.{rate_limit_exceeded}
use hypertrace.Executor.Handler.{handle, remediate, perform_below, perform, carry_out, settle}
use hypertrace.Executor.Handler.Safety as Executor
use hypertrace.Pipeline.Trail.{System, IsSound, IsAppended, IsParent, empty}
use hypertrace.Pipeline.Trail.Decided as Decided
use hypertrace.Pipeline.Trail.Decided.{Earned}
use hypertrace.Pipeline.Trail.Endpoints as Endpoints
use hypertrace.Pipeline.Trail.Runs.{Step, Run, stop, go, decides, approves, handles, run-IsSound}
use hypertrace.Pipeline.Trail.Authorised.{Authorised, run-Authorised}
use hypertrace.Pipeline.Trail.Attended.{Published, run-attended}
use hypertrace.Examples.{world}
use hypertrace.Examples.Deciding as Deciding
use hypertrace.Examples.Detecting as Detecting
use hypertrace.Examples.Executing.{kind}
use hypertrace.Examples.Serving as Serving

abbrev surge : CostMessage ℕ
surge = record Detecting.spike { cost_per_hour = 8000 }

abbrev reading : Reading ℕ
reading = assessed surge 700 Detecting.before

-- What the detector publishes of it.
abbrev surge_anomaly : Anomaly ℕ
surge_anomaly =
    anomaly_of surge reading "id-0" (Detecting.before.clock 2)
      (confidence reading.scores corroboration_none reading.samples)
      AnomalyClassification.unclassified

published : Published ℕ surge_anomaly
unfolding handle_cost handle_cpu cpu_value score_and_learn save_profile load_profile upsert cell_at
    mature_score learn_into assess flag_if flag_anomaly detected_class lookup z_score stddev update
    from_dict to_dict evaluate_condition has_moved max should_learn bucket_key weekday hour show
    Messaging.publish Messaging.attempt Messaging.ensure_channel Messaging.call
published = record { message = surge; world = Detecting.before; sent = refl }

-- The rows of the engine, of the person and of the executor, in that order.
abbrev pending_row : ActionRow
pending_row = record {
  id = "id-0";
  anomaly_id = some "id-0";
  parent_action_id = none;
  rollback_ref = none;
  action_type = "throttle";
  mode = Mode.approved;
  executed_at = 1_000_000_000_000;
  result = ActionResult.pending_approval;
  target = some "shop/cart";
  prior_state = none;
  applied_state = none;
  rollback_deadline = none;
}

abbrev approved_row : ActionRow
approved_row = record pending_row {
  id = "id-1";
  parent_action_id = some "id-0";
  executed_at = 1_000_000_001_000;
  result = ActionResult.dispatched;
}

abbrev throttled_row : ActionRow
throttled_row = record approved_row {
  id = "id-2";
  parent_action_id = some "id-1";
  result = ActionResult.executed;
  prior_state = some (PriorState.deployment_cpu_limit "shop" "cart" "app" (some "500m"));
  applied_state = some "capped cart/app cpu limit to 100m";
  rollback_deadline = some 1_003_600_001_000;
}

abbrev order : RemediationRequest
order = record {
  action_id = "id-1";
  anomaly_id = some "id-0";
  service = "shop/cart";
  action = "throttle";
  mode = some Mode.approved;
  target_action_id = none;
}

abbrev system : List ActionRow → List RemediationRequest → System
system rows orders = record { ledger = rows; bus = map (λ m. (routing_key_remediation, m)) orders }

-- The row that the detector wrote for it.
abbrev anomaly_row : AnomalyRow ℕ
anomaly_row = record {
  id = "id-0";
  service = "shop/cart";
  score = surge_anomaly.score;
  classification = "unclassified";
  evidence = surge_anomaly.evidence;
  status = "open";
  created_at = surge_anomaly.created_at;
  confidence = surge_anomaly.confidence;
  baseline_mature = false;
  cost_delta_usd_hr = none;
}

-- The API, on the ledger of the engine, with the next identifier.
abbrev asked : Api.State ℕ
asked =
    record (world
      (record Serving.database { anomalies = anomaly_row ∷ []; actions_log = pending_row ∷ [] })) {
        made = 1;
      }

-- The executor, on the ledger of the API.
abbrev told : Executor.State kind
told =
    record (world
      (record { actions_log = pending_row ∷ approved_row ∷ []; cluster = some "500m" })) {
        made = 2;
      }

abbrev Call : System → System → Type 0
Call = Step ℕ kind Serving.crypto protected_namespace_prefixes (Published ℕ)

first_move : Call (system [] []) (system (pending_row ∷ []) [])
unfolding Decided.shared handle_anomaly decide decide_matched act_on act_with record_action
    score_confidence authority_for find_matching_policy policy_matches is_protected first_match
    classify recent_deployment recent_security_signal sort_by any_of reclassify lookup
    action_of_string confidence clamp peak magnitude decoupling maturity max min z_score stddev
    from_dict assess mature_score cell_at load_profile score_and_learn save_profile upsert
    bucket_key show weekday hour should_learn evaluate_condition has_moved
first_move = decides surge_anomaly Deciding.before published

second_move :
    Call (system (pending_row ∷ []) []) (system (pending_row ∷ approved_row ∷ []) (order ∷ []))
unfolding Endpoints.shared approve_action require_sre get_current_user claims_of lookup
    approve_gated latest select sort_by approve append_action publish_or_fail after_publish
    service_of Messaging.publish Messaging.attempt Messaging.ensure_channel Messaging.call
second_move = approves "token" "id-0" asked

third_move :
    Call
      (system (pending_row ∷ approved_row ∷ []) (order ∷ []))
      (system (pending_row ∷ approved_row ∷ throttled_row ∷ []) (order ∷ []))
unfolding handle remediate perform_below perform carry_out settle throttle throttle_deployment
    throttle_container split_service lookup Floor.is_protected any_of rate_limit_exceeded count_if
    show
third_move =
    handles (system (pending_row ∷ approved_row ∷ []) (order ∷ [])) routing_key_remediation order
      told (Memᴰ.head refl) refl

abbrev Trust : ActionRow → Type 0
Trust = Earned protected_namespace_prefixes (Published ℕ)

start-IsSound : IsSound Trust (system [] [])
start-IsSound = record { audited = empty; announced = tt }

abbrev last : System
last = system (pending_row ∷ approved_row ∷ throttled_row ∷ []) (order ∷ [])

trail : Run ℕ kind Serving.crypto protected_namespace_prefixes (Published ℕ) (system [] []) last
trail = go _ _ _ first_move (go _ _ _ second_move (go _ _ _ third_move (stop _)))

run-IsSound_example : IsSound Trust last × IsAppended [] last.ledger
run-IsSound_example =
    run-IsSound ℕ kind Serving.crypto protected_namespace_prefixes (Published ℕ) (system [] []) last
      start-IsSound trail

run-Authorised_example : Authorised Trust last.ledger throttled_row
run-Authorised_example =
    run-Authorised ℕ kind Serving.crypto protected_namespace_prefixes (Published ℕ) (system [] [])
      last start-IsSound trail throttled_row (Memᴰ.tail (Memᴰ.tail (Memᴰ.head refl))) refl

run-attended_example :
    (order : ActionRow) × IsParent last.ledger throttled_row order
    × (order.result ≡ ActionResult.dispatched)
    × (order.mode ≡ Mode.approved)
run-attended_example =
    run-attended ℕ decimal-IsOrdered protected_namespace_prefixes kind Serving.crypto (system [] [])
      last start-IsSound trail throttled_row (Memᴰ.tail (Memᴰ.tail (Memᴰ.head refl))) refl
