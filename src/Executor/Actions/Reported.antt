-- ===== src/Executor/Actions/Reported.antt =====
-- The results that the actions of the executor report.
use hypertrace.Prelude.{
  String, ◌≡◌, refl, Bool, true, false, some, List, first, ◌==◌, Bool-cases, Option-cases, inl, inr,
}
use hypertrace.Effects.{Result, ok, err}
use hypertrace.Tables.{ActionResult, PriorState}
use hypertrace.Executor.Cluster.{Kubernetes, Deployment, Hpa, Container, cpu_limit}
use hypertrace.Executor.Service.{split_service}
use hypertrace.Executor.Actions.{
  Outcome, Change, patched, throttle, throttle_deployment, throttle_container, freeze_scaling,
  freeze_listed, freeze_hpa, find_hpa, rollback, throttle_cpu_limit, is_throttled, is_not_found,
}

-- The results that the executor writes.
abbrev pub is_outcome : ActionResult → Bool
is_outcome ActionResult.pending_approval = false
is_outcome ActionResult.dispatched = false
is_outcome ActionResult.dispatch_failed = false
is_outcome ActionResult.alert_only_no_action_taken = false
is_outcome ActionResult.alert_only_low_confidence = false
is_outcome _ = true

module _ (K : Kubernetes) where
  -- A call of the Kubernetes API that answered has one of those results.
  abbrev pub IsReported : Change K → Type 0
  IsReported (ok (o, c)) = is_outcome o.status ≡ true
  IsReported (err e) = Unit {0}

  patched-IsReported :
      (r : Result K.Cluster) (o : Outcome) → is_outcome o.status ≡ true → IsReported (patched K r o)
  patched-IsReported (ok c) o h = h
  patched-IsReported (err e) o h = tt

  throttle_container-IsReported :
      (c : K.Cluster) (namespace name : String) (k : Container)
      → IsReported (throttle_container K c namespace name k)
  unfolding throttle_container
  throttle_container-IsReported c namespace name k =
      elim (Bool-cases (is_throttled (cpu_limit k))) [
        | inl e ↦ rw e refl
        | inr e ↦ rw e (
            patched-IsReported
              (K.patch_deployment c name namespace k.name (some throttle_cpu_limit)) _ refl)
      ]

  throttle_deployment-IsReported :
      (c : K.Cluster) (namespace name : String) (r : Result Deployment)
      → IsReported (throttle_deployment K c namespace name r)
  unfolding throttle_deployment
  throttle_deployment-IsReported c namespace name (err e) = elim (Bool-cases (is_not_found e)) [
    | inl q ↦ rw q refl
    | inr q ↦ rw q tt
  ]
  throttle_deployment-IsReported c namespace name (ok d) =
      elim (Option-cases (first d.containers)) [
        | inl e ↦ rw (e, IsReported) tt
        | inr (k, e) ↦ rw (e, IsReported) (throttle_container-IsReported c namespace name k)
      ]

  pub throttle-IsReported : (c : K.Cluster) (service : String) → IsReported (throttle K c service)
  unfolding throttle
  throttle-IsReported c service =
      let (namespace, name) = split_service service in
      throttle_deployment-IsReported c namespace name (K.read_deployment c name namespace)

  freeze_hpa-IsReported :
      (c : K.Cluster) (namespace : String) (h : Hpa) → IsReported (freeze_hpa K c namespace h)
  unfolding freeze_hpa
  freeze_hpa-IsReported c namespace h = elim (Option-cases h.current_replicas) [
    | inl e ↦ rw e refl
    | inr (n, e) ↦ rw e (elim (Bool-cases (n == 0)) [
      | inl z ↦ rw z refl
      | inr z ↦ rw z (elim (Bool-cases (h.max_replicas == n)) [
        | inl q ↦ rw q refl
        | inr q ↦ rw q (patched-IsReported (K.patch_hpa c h.name namespace n) _ refl)
      ])
    ])
  ]

  freeze_listed-IsReported :
      (c : K.Cluster) (namespace name : String) (r : Result (List Hpa))
      → IsReported (freeze_listed K c namespace name r)
  unfolding freeze_listed
  freeze_listed-IsReported c namespace name (err e) = tt
  freeze_listed-IsReported c namespace name (ok hs) = elim (Option-cases (find_hpa name hs)) [
    | inl e ↦ rw (e, IsReported) refl
    | inr (h, e) ↦ rw (e, IsReported) (freeze_hpa-IsReported c namespace h)
  ]

  pub freeze_scaling-IsReported :
      (c : K.Cluster) (service : String) → IsReported (freeze_scaling K c service)
  unfolding freeze_scaling
  freeze_scaling-IsReported c service =
      let (namespace, name) = split_service service in
      freeze_listed-IsReported c namespace name (K.list_hpas c namespace)

  pub rollback-IsReported : (c : K.Cluster) (prior : PriorState) → IsReported (rollback K c prior)
  unfolding rollback
  rollback-IsReported c (PriorState.deployment_cpu_limit namespace name container previous) =
      patched-IsReported (K.patch_deployment c name namespace container previous) _ refl
  rollback-IsReported c (PriorState.hpa_max_replicas namespace hpa previous) =
      patched-IsReported (K.patch_hpa c hpa namespace previous) _ refl
  rollback-IsReported c (PriorState.unknown_kind kind) = refl
