-- ===== src/Examples/Executing.antt =====
-- The executor's theorems on a cluster of one deployment, whose only container is `app`.
use hypertrace.Prelude.{
  String, ◌≡◌, refl, sym, lookup, ap, ◌∙◌, ◌≢◌, ◌⊎◌, ◌<◌, false, any_of, count_if, Option, none,
  some, [], ◌∷◌, arith,
}
use mathlib.Core.Path.{subst}
use mathlib.Core.List.{Memᴰ}
use mathlib.Core.List.Memᴰ.{not-nil}
use mathlib.Core.Bool.{true≢false}
use hypertrace.Effects.{ok}
use hypertrace.Schemas.{Mode, RemediationRequest}
use hypertrace.Tables.{ActionRow, PriorState, ActionResult}
use hypertrace.Executor.Cluster.{Kubernetes, Deployment, Container, IsConsistent, cpu_limit}
use hypertrace.Executor.Service.{split_service, is_protected}
use hypertrace.Executor.Actions.{
  throttle, throttle_deployment, throttle_container, rollback, is_throttled,
}
use hypertrace.Executor.Limits.{
  rate_limit_exceeded, counts_globally, counts_for, max_actions_per_window, max_actions_per_service,
}
use hypertrace.Executor.Handler.{
  handle, remediate, perform_below, perform, carry_out, settle, load_action, roll_back_request,
  roll_back, roll_back_from, roll_back_before, roll_back_unless,
}
use hypertrace.Executor.Handler.Safety.{State, Recorded, handle-Recorded, remediate_gates}
use hypertrace.Executor.Handler.Gates.{MayUndo, roll_back_gates}
use hypertrace.Executor.Handler.Pacing.Runs.{IsPaced, requested, appended, run, run-IsPaced}
use hypertrace.Examples.{world}

-- The cluster is the limit of the container.
abbrev app : Option String → Container
app none = record { name = "app"; resources = none }
app (some cpu) = record {
  name = "app";
  resources = some (record { limits = some (("cpu", cpu) ∷ []) });
}

abbrev deployed : Option String → Deployment
deployed c = record { containers = app c ∷ [] }

abbrev pub kind : Kubernetes
kind = record {
  Cluster = Option String;
  read_deployment = λ c name namespace. ok (deployed c);
  patch_deployment = λ c name namespace container cpu. ok cpu;
  list_hpas = λ c namespace. ok [];
  patch_hpa = λ c name namespace n. ok c;
}

app_limit : (c : Option String) → cpu_limit (app c) ≡ c
unfolding lookup
app_limit none = refl
app_limit (some cpu) = refl

app_name : (c : Option String) → (app c).name ≡ "app"
app_name none = refl
app_name (some cpu) = refl

pub kind-IsConsistent : IsConsistent kind
kind-IsConsistent = record {
  read-patch = λ c c' name namespace container before cpu h p. record {
    deployment = deployed c';
    head = app c';
    read = refl;
    front = refl;
    named =
        let same : app c ≡ h.head = ground (arith, h.read, h.front) in
        app_name c' ∙ sym (app_name c) ∙ ap (λ (k : Container). k.name) same ∙ h.named;
    limit = let set : c' ≡ cpu = ground (arith, p) in app_limit c' ∙ set;
  };
  list-patch = λ c c' hpa namespace before replicas h p.
      let none_listed : [] ≡ h.listed = ground (arith, h.read) in
      absurd (not-nil (subst (Memᴰ h.scaler) (sym none_listed) h.member));
}

abbrev pub request : RemediationRequest
request = record {
  action_id = "action-1";
  anomaly_id = some "anomaly-1";
  service = "shop/cart";
  action = "throttle";
  mode = none;
  target_action_id = none;
}

abbrev past_row : ActionRow
past_row = record {
  id = "action-0";
  anomaly_id = some "anomaly-1";
  parent_action_id = none;
  rollback_ref = none;
  action_type = "throttle";
  mode = Mode.autonomous;
  executed_at = 5;
  result = ActionResult.executed;
  target = some "shop/cart";
  prior_state = some (PriorState.deployment_cpu_limit "shop" "cart" "app" (some "500m"));
  applied_state = none;
  rollback_deadline = some 2_000_000_000_000;
}

abbrev pub before : State kind
before = world (record { actions_log = []; cluster = some "500m" })

abbrev capped : State kind
capped = world (record { actions_log = past_row ∷ []; cluster = some "100m" })

handle-Recorded_example : Recorded kind request before (handle kind [] request before)
handle-Recorded_example = handle-Recorded kind [] request before

limits_differ : ◌≢◌ {A = Option String} (some "100m") (some "500m")
limits_differ = λ e. true≢false (ap is_throttled e)

touched : (remediate kind [] request before).1.own.cluster ≢ before.own.cluster
unfolding remediate perform_below perform carry_out settle throttle throttle_deployment
    throttle_container split_service lookup is_protected any_of rate_limit_exceeded count_if
touched = λ e. limits_differ e

remediate_gates_example :
    (is_protected "shop/cart" [] ≡ false)
    × (count_if (counts_globally (before.clock before.reads)) [] < max_actions_per_window)
    × (count_if (counts_for (before.clock before.reads) "shop/cart") [] < max_actions_per_service)
    × ((request.action ≡ "throttle") ⊎ (request.action ≡ "freeze_scaling"))
remediate_gates_example = remediate_gates kind [] request before touched

abbrev undo : RemediationRequest
undo = record request { action = "rollback"; target_action_id = some "action-0" }

restored : (handle kind [] undo capped).1.own.cluster ≢ capped.own.cluster
unfolding handle roll_back_request load_action roll_back roll_back_from roll_back_before
    roll_back_unless settle rollback
restored = λ e. limits_differ (sym e)

roll_back_gates_example : MayUndo kind undo capped
roll_back_gates_example = roll_back_gates kind [] undo capped refl restored

-- The workload is throttled, a decision of another service comes in, and the workload is throttled
-- again, which the ceiling on one service withholds.
abbrev another : ActionRow
another = record past_row { id = "action-9"; result = ActionResult.dispatched }

paced : IsPaced before.own.actions_log
unfolding count_if
paced = record { overall = λ since. omega arith; each = λ since service. omega arith }

run-IsPaced_example :
    IsPaced
      (run kind []
        (requested request ∷ appended another refl ∷ requested request ∷ [])
        before).own.actions_log
run-IsPaced_example =
    run-IsPaced kind [] (requested request ∷ appended another refl ∷ requested request ∷ []) before
      (λ n. omega arith) paced
