-- ===== src/Executor/Actions.antt =====
-- services/remediation-executor/app/k8s_actions.py: throttle, freeze_scaling and rollback.
pub mod Freeze
pub mod Reported
pub mod Restore
use hypertrace.Prelude.{
  ℕ, zero, suc, String, ◌<>◌, Bool, true, false, Option, none, some, List, [], ◌∷◌, first, show,
  str_eq, ◌==◌, if◌then◌else◌,
}
use hypertrace.Effects.{Result, ok, err, Failure, api_error, index_error}
use hypertrace.Tables.{ActionResult, PriorState}
use hypertrace.Executor.Cluster.{Kubernetes, Deployment, Container, Hpa, cpu_limit}
use hypertrace.Executor.Service.{split_service}

abbrev pub throttle_cpu_limit : String
throttle_cpu_limit = "100m"

-- The dictionary that an action returns.
pub record Outcome : Type 0 where
  pub status : ActionResult
  pub reason : String
  pub rollback_ref : Option PriorState

abbrev pub no_op : String → Outcome
no_op reason = record { status = ActionResult.no_op; reason = reason; rollback_ref = none }

abbrev pub is_not_found : Failure → Bool
is_not_found (api_error status) = status == 404
is_not_found _ = false

abbrev pub is_throttled : Option String → Bool
is_throttled none = false
is_throttled (some limit) = str_eq limit throttle_cpu_limit

abbrev show_limit : Option String → String
show_limit none = "None"
show_limit (some limit) = limit

-- `next((h for h in hpas.items if h.spec.scale_target_ref.name == deployment_name), None)`
unfoldable pub find_hpa : String → List Hpa → Option Hpa
find_hpa name [] = none
find_hpa name (h ∷ hs) = if str_eq h.target name then some h else find_hpa name hs

module _ (K : Kubernetes) where
  open K use {Cluster, read_deployment, patch_deployment, list_hpas, patch_hpa}

  -- An action answers with its outcome and the cluster that it leaves, or raises and leaves it.
  abbrev pub Change : Type 0
  Change = Result (Outcome × Cluster)

  abbrev pub patched : Result Cluster → Outcome → Change
  patched (ok c) o = ok (o, c)
  patched (err e) o = err e

  throttled : String → String → Container → Outcome
  throttled namespace name k = record {
    status = ActionResult.executed;
    reason = "capped " <> (name <> ("/" <> (k.name <> (" cpu limit to " <> throttle_cpu_limit))));
    rollback_ref = some (PriorState.deployment_cpu_limit namespace name k.name (cpu_limit k));
  }

  -- `throttle` from the container on
  unfoldable pub throttle_container : Cluster → String → String → Container → Change
  unfolding throttled
  throttle_container c namespace name k =
      if is_throttled (cpu_limit k)
      then ok (no_op "already throttled", c)
      else patched (patch_deployment c name namespace k.name (some throttle_cpu_limit))
          (throttled namespace name k)

  unfoldable pub throttle_deployment : Cluster → String → String → Result Deployment → Change
  throttle_deployment c namespace name (err e) =
      if is_not_found e then ok (no_op ("no Deployment named " <> name), c) else err e
  throttle_deployment c namespace name (ok d) = elim (first d.containers) [
    | none ↦ err index_error
    | some k ↦ throttle_container c namespace name k
  ]

  unfoldable pub throttle : Cluster → String → Change
  throttle c service =
      let (namespace, name) = split_service service in
      throttle_deployment c namespace name (read_deployment c name namespace)

  frozen : String → Hpa → ℕ → Outcome
  frozen namespace h replicas = record {
    status = ActionResult.executed;
    reason = "froze " <> (h.name <> (" maxReplicas at " <> show replicas));
    rollback_ref = some (PriorState.hpa_max_replicas namespace h.name h.max_replicas);
  }

  -- `freeze_scaling` from the autoscaler on
  unfoldable pub freeze_hpa : Cluster → String → Hpa → Change
  unfolding frozen
  freeze_hpa c namespace h = elim h.current_replicas [
    | none ↦ ok (no_op "HPA has not reported a replica count yet", c)
    | some replicas ↦
        if replicas == 0
        then ok (no_op "workload is scaled to zero", c)
        else if h.max_replicas == replicas
        then ok (no_op "already frozen at current replica count", c)
        else patched (patch_hpa c h.name namespace replicas) (frozen namespace h replicas)
  ]

  unfoldable pub freeze_listed : Cluster → String → String → Result (List Hpa) → Change
  freeze_listed c namespace name (err e) = err e
  freeze_listed c namespace name (ok hs) = elim (find_hpa name hs) [
    | none ↦ ok (no_op ("no HPA targets " <> name), c)
    | some h ↦ freeze_hpa c namespace h
  ]

  unfoldable pub freeze_scaling : Cluster → String → Change
  freeze_scaling c service =
      let (namespace, name) = split_service service in
      freeze_listed c namespace name (list_hpas c namespace)

  abbrev rolled_back : String → Outcome
  rolled_back reason = record {
    status = ActionResult.rolled_back;
    reason = reason;
    rollback_ref = none;
  }

  unfoldable pub rollback : Cluster → PriorState → Change
  rollback c (PriorState.deployment_cpu_limit namespace name container previous) =
      patched (patch_deployment c name namespace container previous) (
        rolled_back (
          "restored "
          <> (name <> ("/" <> (container <> (" cpu limit to " <> show_limit previous))))))
  rollback c (PriorState.hpa_max_replicas namespace hpa previous) =
      patched (patch_hpa c hpa namespace previous)
        (rolled_back ("restored " <> (hpa <> (" maxReplicas to " <> show previous))))
  rollback c (PriorState.unknown_kind kind) = ok (
    record {
      status = ActionResult.failed;
      reason = "unknown rollback kind: " <> kind;
      rollback_ref = none;
    },
    c,
  )
