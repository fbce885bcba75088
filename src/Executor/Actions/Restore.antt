-- ===== src/Executor/Actions/Restore.antt =====
-- Throttling twice changes nothing the second time, and a rollback restores what a throttle replaced.
use hypertrace.Prelude.{String, ◌≡◌, refl, false, Option, none, some, first, arith, eq_iff}
use hypertrace.Effects.{Result, ok, err, index_error}
use hypertrace.Tables.{ActionResult, PriorState}
use hypertrace.Executor.Cluster.{
  Kubernetes, Deployment, Container, LimitIs, IsConsistent, cpu_limit,
}
use hypertrace.Executor.Service.{split_service}
use hypertrace.Executor.Actions.{
  Outcome, Change, throttle, throttle_deployment, throttle_container, rollback, throttle_cpu_limit,
  is_throttled, no_op,
}

module _ (K : Kubernetes) (laws : IsConsistent K) where
  open K use {Cluster, read_deployment, patch_deployment}

  -- What an executed throttle has done: the limit that the first container had is recorded, and a
  -- read shows the cap in its place.
  pub record IsCapped (namespace name : String) (c c' : Cluster) (o : Outcome) : Type 0 where
    pub container : String
    pub before : Option String
    pub reference :
        o.rollback_ref ≡ some (PriorState.deployment_cpu_limit namespace name container before)
    pub had : LimitIs K c name namespace container before
    pub has : LimitIs K c' name namespace container (some throttle_cpu_limit)
    pub differs : is_throttled before ≡ false

  throttle_container-IsCapped :
      (namespace name : String) (c c' : Cluster) (k : Container) (o : Outcome)
      → LimitIs K c name namespace k.name (cpu_limit k)
      → throttle_container K c namespace name k ≡ ok (o, c')
      → o.status ≡ ActionResult.executed
      → IsCapped namespace name c c' o
  unfolding throttle_container
  throttle_container-IsCapped namespace name c c' k o had h e =
      let fresh : is_throttled (cpu_limit k) ≡ false = ground arith in
      let answer : patch_deployment c name namespace k.name (some throttle_cpu_limit) ≡ ok c' =
        ground arith in
      record {
        container = k.name;
        before = cpu_limit k;
        reference = ground arith;
        had = had;
        has =
            laws.read-patch c c' name namespace k.name (cpu_limit k) (some throttle_cpu_limit) had
              answer;
        differs = fresh;
      }

  throttle_first-IsCapped :
      (namespace name : String) (c c' : Cluster) (d : Deployment) (k : Option Container)
      (o : Outcome)
      → read_deployment c name namespace ≡ ok d
      → first d.containers ≡ k
      → elim k as (λ _. Change K) [
        | none ↦ err index_error
        | some x ↦ throttle_container K c namespace name x
      ]
        ≡ ok (o, c')
      → o.status ≡ ActionResult.executed
      → IsCapped namespace name c c' o
  throttle_first-IsCapped namespace name c c' d none o r q h e = absurd (ground arith)
  throttle_first-IsCapped namespace name c c' d (some k) o r q h e =
      throttle_container-IsCapped namespace name c c' k o
        (record { deployment = d; head = k; read = r; front = q; named = refl; limit = refl }) h e

  throttle_deployment-IsCapped :
      (namespace name : String) (c c' : Cluster) (r : Result Deployment) (o : Outcome)
      → read_deployment c name namespace ≡ r
      → throttle_deployment K c namespace name r ≡ ok (o, c')
      → o.status ≡ ActionResult.executed
      → IsCapped namespace name c c' o
  unfolding throttle_deployment
  throttle_deployment-IsCapped namespace name c c' (ok d) o q h e =
      throttle_first-IsCapped namespace name c c' d (first d.containers) o q refl h e
  throttle_deployment-IsCapped namespace name c c' (err x) o q h e = absurd (ground arith)

  -- An executed throttle has capped the first container of the deployment, which was not capped
  -- before, and its outcome names the limit that it replaced.
  pub throttle-IsCapped :
      (service : String) (c c' : Cluster) (o : Outcome)
      → throttle K c service ≡ ok (o, c')
      → o.status ≡ ActionResult.executed
      → IsCapped (split_service service).0 (split_service service).1 c c' o
  unfolding throttle
  throttle-IsCapped service c c' o h e =
      throttle_deployment-IsCapped (split_service service).0 (split_service service).1 c c'
        (read_deployment c (split_service service).1 (split_service service).0) o refl h e

  -- A second throttle of a capped deployment changes nothing and records no reference, so the first
  -- reference is not replaced by the cap itself.
  throttle_again :
      (service container : String) (c : Cluster)
      → LimitIs K c
          (split_service service).1
          (split_service service).0
          container
          (some throttle_cpu_limit)
      → throttle K c service ≡ ok (no_op "already throttled", c)
  unfolding throttle throttle_deployment throttle_container
  throttle_again service container c h =
      ground (arith, h.read, h.front, h.limit, eq_iff throttle_cpu_limit throttle_cpu_limit)

  -- A rollback by the reference of an executed throttle, while the API accepts the patch, gives the
  -- container the limit that it had before.
  pub rollback-throttle :
      (service : String) (c c' c'' : Cluster) (o r : Outcome) (prior : PriorState)
      → throttle K c service ≡ ok (o, c')
      → o.status ≡ ActionResult.executed
      → o.rollback_ref ≡ some prior
      → rollback K c' prior ≡ ok (r, c'')
      → (container : String) × (before : Option String) × LimitIs K c
          (split_service service).1
          (split_service service).0
          container
          before
        × LimitIs K c'' (split_service service).1 (split_service service).0 container before
  unfolding rollback
  rollback-throttle service c c' c'' o r prior h e p b =
      let capped = throttle-IsCapped service c c' o h e in
      let same : prior
          ≡ PriorState.deployment_cpu_limit (split_service service).0 (split_service service).1
              capped.container capped.before =
        ground (arith, capped.reference) in
      let answer : patch_deployment c' (split_service service).1 (split_service service).0
            capped.container capped.before
          ≡ ok c'' =
        ground (arith, rw same at b) in
      (
        capped.container,
        capped.before,
        capped.had,
        laws.read-patch c' c'' (split_service service).1 (split_service service).0 capped.container
            (some throttle_cpu_limit) capped.before capped.has answer,
      )
