-- ===== src/Executor/Cluster.antt =====
-- The Kubernetes API as far as services/remediation-executor/app/k8s_actions.py calls it. The cluster
-- and its API are not part of the repository: they are a parameter, with the documented behaviour
-- of a patch as laws.
use hypertrace.Prelude.{ℕ, String, ◌≡◌, Option, none, some, List, Dict, lookup, first}
use mathlib.Core.List.{Memᴰ}
use hypertrace.Effects.{Result, ok}

pub record Resources : Type 0 where
  pub limits : Option (Dict String)

pub record Container : Type 0 where
  pub name : String
  pub resources : Option Resources

pub record Deployment : Type 0 where
  pub containers : List Container

pub record Hpa : Type 0 where
  pub name : String
  pub target : String
  pub max_replicas : ℕ
  pub current_replicas : Option ℕ

-- `(container.resources.limits or {}).get("cpu") if container.resources else None`
abbrev pub cpu_limit : Container → Option String
cpu_limit k = elim k.resources [
  | none ↦ none
  | some r ↦ elim r.limits [ none ↦ none | some limits ↦ lookup "cpu" limits ]
]

-- Arguments stand in the order of the client's methods: the name, then the namespace.
pub record Kubernetes : Type 1 where
  pub Cluster : Type 0
  pub read_deployment : Cluster → String → String → Result Deployment
  -- a patch of one container's `resources.limits.cpu`; `none` is JSON null, which removes the limit
  pub patch_deployment : Cluster → String → String → String → Option String → Result Cluster
  pub list_hpas : Cluster → String → Result (List Hpa)
  pub patch_hpa : Cluster → String → String → ℕ → Result Cluster

-- The limit of the first container, as the API reads it.
pub record LimitIs (K : Kubernetes) (c : K.Cluster) (name namespace : String) (container : String)
    (cpu : Option String) : Type 0 where
  pub deployment : Deployment
  pub head : Container
  pub read : K.read_deployment c name namespace ≡ ok deployment
  pub front : first deployment.containers ≡ some head
  pub named : head.name ≡ container
  pub limit : cpu_limit head ≡ cpu

-- An autoscaler's ceiling, as a list of the autoscalers of its namespace shows it.
pub record CeilingIs (K : Kubernetes) (c : K.Cluster) (namespace hpa : String) (replicas : ℕ)
    : Type 0 where
  pub listed : List Hpa
  pub scaler : Hpa
  pub read : K.list_hpas c namespace ≡ ok listed
  pub member : Memᴰ scaler listed
  pub named : scaler.name ≡ hpa
  pub ceiling : scaler.max_replicas ≡ replicas

-- A patch of a container's limit is what a later read of the deployment shows, and a patch of an
-- autoscaler's ceiling what a later list of the autoscalers shows.
pub record IsConsistent (K : Kubernetes) : Type 0 where
  pub read-patch :
      (c c' : K.Cluster) (name namespace container : String) (before cpu : Option String)
      → LimitIs K c name namespace container before
      → K.patch_deployment c name namespace container cpu ≡ ok c'
      → LimitIs K c' name namespace container cpu
  pub list-patch :
      (c c' : K.Cluster) (hpa namespace : String) (before replicas : ℕ)
      → CeilingIs K c namespace hpa before
      → K.patch_hpa c hpa namespace replicas ≡ ok c'
      → CeilingIs K c' namespace hpa replicas
