-- ===== src/Examples/Undoing.antt =====
-- A throttle and the rollback of it, at the cluster of the executor's examples.
use hypertrace.Prelude.{
  String, refl, lookup, any_of, count_if, show, Option, none, some, [], ◌∷◌, arith,
}
use hypertrace.Schemas.{Mode}
use hypertrace.Tables.{ActionRow, ActionResult, PriorState}
use hypertrace.Bff.Actions.{rollback_request}
use hypertrace.Executor.Cluster.{LimitIs}
use hypertrace.Executor.Service.{split_service, is_protected}
use hypertrace.Executor.Actions.{throttle, throttle_deployment, throttle_container, rollback}
use hypertrace.Executor.Limits.{rate_limit_exceeded}
use hypertrace.Executor.Handler.{
  handle, remediate, perform_below, perform, carry_out, settle, load_action, roll_back_request,
  roll_back, roll_back_from, roll_back_before, roll_back_unless,
}
use hypertrace.Executor.Handler.Safety.{State}
use hypertrace.Pipeline.Undoing.Restored.{handle-undone}
use hypertrace.Examples.{world}
use hypertrace.Examples.Executing.{kind, kind-IsConsistent, request, before}

abbrev throttled : ActionRow
throttled = record {
  id = "id-0";
  anomaly_id = some "anomaly-1";
  parent_action_id = some "action-1";
  rollback_ref = none;
  action_type = "throttle";
  mode = Mode.autonomous;
  executed_at = 1_000_000_001_000;
  result = ActionResult.executed;
  target = some "shop/cart";
  prior_state = some (PriorState.deployment_cpu_limit "shop" "cart" "app" (some "500m"));
  applied_state = some "capped cart/app cpu limit to 100m";
  rollback_deadline = some 1_003_600_001_000;
}

abbrev after : State kind
after = world (record { actions_log = throttled ∷ []; cluster = some "100m" })

handle-undone_example :
    (container : String) × (limit : Option String) × LimitIs kind
      (some "500m")
      "cart"
      "shop"
      container
      limit
    × LimitIs kind
        (handle kind [] (rollback_request "action-2" "anomaly-1" "id-0") after).1.own.cluster
        "cart"
        "shop"
        container
        limit
unfolding handle remediate perform_below perform carry_out settle throttle throttle_deployment
    throttle_container split_service lookup is_protected any_of rate_limit_exceeded count_if show
    load_action roll_back_request roll_back roll_back_from roll_back_before roll_back_unless
    rollback
handle-undone_example =
    handle-undone kind kind-IsConsistent [] request before after throttled "action-2" "anomaly-1"
      refl refl refl refl refl (omega arith) refl
