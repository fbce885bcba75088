-- ===== src/Executor/Actions/Freeze.antt =====
-- A freeze pins an autoscaler at its current count, and a rollback restores its ceiling.
use hypertrace.Prelude.{
  ℕ, String, ◌<>◌, ◌≡◌, ◌≢◌, refl, Option, none, some, List, [], ◌∷◌, arith, eq_iff, str_eq, inl,
  inr, Bool-cases,
}
use mathlib.Core.Path.{subst, sym}
use mathlib.Core.List.{Memᴰ}
use hypertrace.Effects.{Result, ok, err}
use hypertrace.Tables.{ActionResult, PriorState}
use hypertrace.Executor.Cluster.{Kubernetes, Hpa, CeilingIs, IsConsistent}
use hypertrace.Executor.Service.{split_service}
use hypertrace.Executor.Actions.{
  Outcome, Change, freeze_scaling, freeze_listed, freeze_hpa, find_hpa, rollback, no_op,
}

-- An autoscaler that is found is listed and targets the workload.
find_hpa-member :
    (name : String) (hs : List Hpa) (h : Hpa)
    → find_hpa name hs ≡ some h
    → Memᴰ h hs × (h.target ≡ name)
unfolding find_hpa
find_hpa-member name [] h e = absurd (ground arith)
find_hpa-member name (x ∷ hs) h e = elim (Bool-cases (str_eq x.target name)) [
  | inl q ↦
      let same : x ≡ h = ground arith in
      (
        Memᴰ.head (sym same),
        subst (λ y. y.target ≡ name) same (ground (arith, eq_iff x.target name)),
      )
  | inr q ↦
      let (member, target) = find_hpa-member name hs h (ground arith) in (Memᴰ.tail member, target)
]

module _ (K : Kubernetes) (laws : IsConsistent K) where
  open K use {Cluster, list_hpas, patch_hpa}

  -- What an executed freeze has done: an autoscaler of the workload now has the count that it
  -- reported as its ceiling, a count other than zero and than its ceiling before, which is recorded.
  pub record IsFrozen (namespace name : String) (c c' : Cluster) (o : Outcome) : Type 0 where
    pub scaler : Hpa
    pub replicas : ℕ
    pub targeted : scaler.target ≡ name
    pub reported : scaler.current_replicas ≡ some replicas
    pub alive : replicas ≢ 0
    pub differs : scaler.max_replicas ≢ replicas
    pub reference :
        o.rollback_ref
        ≡ some (PriorState.hpa_max_replicas namespace scaler.name scaler.max_replicas)
    pub had : CeilingIs K c namespace scaler.name scaler.max_replicas
    pub has : CeilingIs K c' namespace scaler.name replicas

  freeze_hpa-IsFrozen :
      (namespace name : String) (c c' : Cluster) (h : Hpa) (current : Option ℕ) (o : Outcome)
      → h.target ≡ name
      → h.current_replicas ≡ current
      → CeilingIs K c namespace h.name h.max_replicas
      → freeze_hpa K c namespace h ≡ ok (o, c')
      → o.status ≡ ActionResult.executed
      → IsFrozen namespace name c c' o
  unfolding freeze_hpa
  freeze_hpa-IsFrozen namespace name c c' h none o t r had e s = absurd (ground arith)
  freeze_hpa-IsFrozen namespace name c c' h (some replicas) o t r had e s =
      let answer : patch_hpa c h.name namespace replicas ≡ ok c' = ground arith in
      record {
        scaler = h;
        replicas = replicas;
        targeted = t;
        reported = r;
        alive = λ z. ground arith;
        differs = λ z. ground arith;
        reference = ground arith;
        had = had;
        has = laws.list-patch c c' h.name namespace h.max_replicas replicas had answer;
      }

  freeze_found-IsFrozen :
      (namespace name : String) (c c' : Cluster) (hs : List Hpa) (found : Option Hpa) (o : Outcome)
      → list_hpas c namespace ≡ ok hs
      → find_hpa name hs ≡ found
      → elim found as (λ _. Change K) [
        | none ↦ ok (no_op ("no HPA targets " <> name), c)
        | some h ↦ freeze_hpa K c namespace h
      ]
        ≡ ok (o, c')
      → o.status ≡ ActionResult.executed
      → IsFrozen namespace name c c' o
  freeze_found-IsFrozen namespace name c c' hs none o l q e s = absurd (ground arith)
  freeze_found-IsFrozen namespace name c c' hs (some h) o l q e s =
      let (member, target) = find_hpa-member name hs h q in
      freeze_hpa-IsFrozen namespace name c c' h h.current_replicas o target refl
        (record {
          listed = hs;
          scaler = h;
          read = l;
          member = member;
          named = refl;
          ceiling = refl;
        })
        e s

  freeze_listed-IsFrozen :
      (namespace name : String) (c c' : Cluster) (r : Result (List Hpa)) (o : Outcome)
      → list_hpas c namespace ≡ r
      → freeze_listed K c namespace name r ≡ ok (o, c')
      → o.status ≡ ActionResult.executed
      → IsFrozen namespace name c c' o
  unfolding freeze_listed
  freeze_listed-IsFrozen namespace name c c' (err x) o l e s = absurd (ground arith)
  freeze_listed-IsFrozen namespace name c c' (ok hs) o l e s =
      freeze_found-IsFrozen namespace name c c' hs (find_hpa name hs) o l refl e s

  freeze_scaling-IsFrozen :
      (service : String) (c c' : Cluster) (o : Outcome)
      → freeze_scaling K c service ≡ ok (o, c')
      → o.status ≡ ActionResult.executed
      → IsFrozen (split_service service).0 (split_service service).1 c c' o
  unfolding freeze_scaling
  freeze_scaling-IsFrozen service c c' o h e =
      freeze_listed-IsFrozen (split_service service).0 (split_service service).1 c c'
        (list_hpas c (split_service service).0) o refl h e

  -- An executed freeze has pinned an autoscaler that targets the workload at the count that it
  -- reported; a rollback by its reference, while the API accepts the patch, gives the autoscaler the
  -- ceiling that it had before.
  pub rollback-freeze_scaling :
      (service : String) (c c' c'' : Cluster) (o r : Outcome) (prior : PriorState)
      → freeze_scaling K c service ≡ ok (o, c')
      → o.status ≡ ActionResult.executed
      → o.rollback_ref ≡ some prior
      → rollback K c' prior ≡ ok (r, c'')
      → (frozen : IsFrozen (split_service service).0 (split_service service).1 c c' o) × CeilingIs K
          c''
          (split_service service).0
          frozen.scaler.name
          frozen.scaler.max_replicas
  unfolding rollback
  rollback-freeze_scaling service c c' c'' o r prior h e p b =
      let frozen = freeze_scaling-IsFrozen service c c' o h e in
      let same : prior
          ≡ PriorState.hpa_max_replicas (split_service service).0 frozen.scaler.name
              frozen.scaler.max_replicas =
        ground (arith, frozen.reference) in
      let answer : patch_hpa c' frozen.scaler.name (split_service service).0
            frozen.scaler.max_replicas
          ≡ ok c'' =
        ground (arith, rw same at b) in
      (
        frozen,
        laws.list-patch c' c'' frozen.scaler.name (split_service service).0 frozen.replicas
            frozen.scaler.max_replicas frozen.has answer,
      )
