-- ===== src/Collector/Resolver.antt =====
-- services/collector/app/workload_resolver.py: the name of the workload that owns a pod. The
-- Kubernetes API is a parameter; its answers may differ from call to call.
pub mod Stable
use hypertrace.Prelude.{
  ℕ, ◌+◌, ◌*◌, ◌-◌, String, Bool, true, false, not, ◌&&◌, Option, none, some, List, [], ◌∷◌, any_of,
  str_eq, ltb, first, if◌then◌else◌,
}

pub record Owner : Type 0 where
  pub kind : String
  pub name : String

-- The owner references of a pod and of a replica set, by the number of the call, the namespace and
-- the name; `none` when the call raises.
pub record Api : Type 0 where
  pub read_pod : ℕ → String → String → Option (List Owner)
  pub read_replica_set : ℕ → String → String → Option (List Owner)

pub record Entry : Type 0 where
  pub namespace : String
  pub pod : String
  pub workload : String
  pub stored_at : ℕ

-- `_cache`, and the number of API calls made.
pub record Resolver : Type 0 where
  pub cache : List Entry
  pub calls : ℕ

-- 300 seconds of the monotonic clock, in microseconds.
abbrev pub cache_ttl : ℕ
cache_ttl = 300_000_000

unfoldable pub has_key : String → String → Entry → Bool
has_key namespace pod e = str_eq e.namespace namespace && str_eq e.pod pod

unfoldable pub cached : String → String → List Entry → Option Entry
cached namespace pod [] = none
cached namespace pod (e ∷ rest) =
    if has_key namespace pod e then some e else cached namespace pod rest

unfoldable pub store : Entry → List Entry → List Entry
store e [] = e ∷ []
store e (d ∷ rest) = if has_key e.namespace e.pod d then e ∷ rest else d ∷ store e rest

-- The workload of a replica set's pod, by the answer to the second call.
unfoldable pub of_replica_set : String → Owner → Option (List Owner) → String
of_replica_set pod owner none = pod
of_replica_set pod owner (some []) = owner.name
of_replica_set pod owner (some (rs_owner ∷ _)) = rs_owner.name

module _ (api : Api) where
  -- The workload by the answer to the first call, and the number of calls made after it.
  unfoldable pub of_pod : ℕ → String → String → Option (List Owner) → String × ℕ
  of_pod calls namespace pod none = (pod, calls)
  of_pod calls namespace pod (some []) = (pod, calls)
  of_pod calls namespace pod (some (owner ∷ _)) =
      if str_eq owner.kind "ReplicaSet"
      then (of_replica_set pod owner (api.read_replica_set calls namespace owner.name), calls + 1)
      else (owner.name, calls)

  -- `_lookup`
  unfoldable pub look_up : ℕ → String → String → String × ℕ
  look_up calls namespace pod = of_pod (calls + 1) namespace pod (api.read_pod calls namespace pod)

  unfoldable pub look_up_and_store : ℕ → String → String → Resolver → String × Resolver
  look_up_and_store at namespace pod r =
      let (workload, calls) = look_up r.calls namespace pod in
      (
        workload,
        record {
          cache =
              store
                (record { namespace = namespace; pod = pod; workload = workload; stored_at = at })
                r.cache;
          calls = calls;
        },
      )

  -- What `resolve` does at a time with what the cache holds.
  unfoldable pub resolve_with : ℕ → String → String → Resolver → Option Entry → String × Resolver
  resolve_with at namespace pod r none = look_up_and_store at namespace pod r
  resolve_with at namespace pod r (some e) =
      let fresh = look_up_and_store at namespace pod r in
      if ltb (at - e.stored_at) cache_ttl then (e.workload, r) else fresh

  unfoldable pub resolve : ℕ → String → String → Resolver → String × Resolver
  resolve at namespace pod r = resolve_with at namespace pod r (cached namespace pod r.cache)

-- Whether a key is among the live ones.
unfoldable pub is_live : List (String × String) → String → String → Bool
is_live live namespace pod = any_of (λ k. str_eq k.0 namespace && str_eq k.1 pod) live

unfoldable pub keep_live : List (String × String) → List Entry → List Entry
keep_live live [] = []
keep_live live (e ∷ rest) =
    if is_live live e.namespace e.pod then e ∷ keep_live live rest else keep_live live rest

-- `prune`
unfoldable pub prune : List (String × String) → Resolver → Resolver
prune live r = record r { cache = keep_live live r.cache }
