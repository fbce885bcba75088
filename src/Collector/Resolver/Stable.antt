-- ===== src/Collector/Resolver/Stable.antt =====
-- How the resolver's answers stay the same.
use hypertrace.Prelude.{
  ℕ, ◌+◌, ◌-◌, ◌<◌, ◌≤◌, ◌≡◌, refl, Option-cases, ap, ◌∙◌, String, true, none, some, List, [], ◌∷◌,
  str_eq, eq_iff, ltb, arith, if◌then◌else◌, Bool-cases, inl, inr,
}
use mathlib.Core.Path.{subst, sym}
use hypertrace.Collector.Resolver.{
  Owner, Api, Entry, Resolver, cache_ttl, has_key, cached, store, of_replica_set, of_pod, look_up,
  look_up_and_store, resolve_with, resolve, is_live, keep_live, prune,
}

-- A pod of a deployment, as the API shows it at a number of calls: its first owner is a replica
-- set, whose first owner is the deployment.
pub record IsDeployed (api : Api) (calls : ℕ) (namespace pod deployment : String) : Type 0 where
  pub replica_set : Owner
  pub owner : Owner
  pub others : List Owner
  pub more : List Owner
  pub is_replica_set : str_eq replica_set.kind "ReplicaSet" ≡ true
  pub pod_owned : api.read_pod calls namespace pod ≡ some (replica_set ∷ others)
  pub owned : api.read_replica_set (calls + 1) namespace replica_set.name ≡ some (owner ∷ more)
  pub named : owner.name ≡ deployment

-- A pod of a deployment is looked up as the deployment, whatever the pod and its replica set are
-- called.
pub look_up-deployment :
    (api : Api) (calls : ℕ) (namespace pod deployment : String)
    → IsDeployed api calls namespace pod deployment
    → (look_up api calls namespace pod).0 ≡ deployment
unfolding look_up of_pod of_replica_set
look_up-deployment api calls namespace pod deployment d =
    rw (d.pod_owned, d.is_replica_set, d.owned) d.named

cached-store :
    (e : Entry) (entries : List Entry) → cached e.namespace e.pod (store e entries) ≡ some e
unfolding cached store has_key
cached-store e [] = ground (arith, eq_iff e.namespace e.namespace, eq_iff e.pod e.pod)
cached-store e (d ∷ rest) =
    ground (arith, cached-store e rest, eq_iff e.namespace e.namespace, eq_iff e.pod e.pod)

module _ (api : Api) where
  resolve-again_stored :
      (at later : ℕ) (namespace pod : String) (r : Resolver)
      → ltb (later - at) cache_ttl ≡ true
      → let (workload, r1) = look_up_and_store api at namespace pod r in
        resolve api later namespace pod r1 ≡ (workload, r1)
  unfolding look_up_and_store resolve resolve_with
  resolve-again_stored at later namespace pod r soon =
      let e : Entry = record {
        namespace = namespace;
        pod = pod;
        workload = (look_up api r.calls namespace pod).0;
        stored_at = at;
      } in
      let r1 : Resolver = record {
        cache = store e r.cache;
        calls = (look_up api r.calls namespace pod).1;
      } in
      ap (resolve_with api later namespace pod r1) (cached-store e r.cache) ∙ ground arith

  -- A pod whose name has to be looked up: the cache has no entry for it, or one that is five minutes
  -- old.
  abbrev pub IsDue : ℕ → String → String → Resolver → Type 0
  IsDue at namespace pod r =
      (e : Entry) → cached namespace pod r.cache ≡ some e → e.stored_at + cache_ttl ≤ at

  pub resolve-due :
      (at : ℕ) (namespace pod : String) (r : Resolver)
      → IsDue at namespace pod r
      → resolve api at namespace pod r ≡ look_up_and_store api at namespace pod r
  unfolding resolve resolve_with
  resolve-due at namespace pod r due = elim (Option-cases (cached namespace pod r.cache)) [
    | inl e ↦ rw e refl
    | inr (entry, e) ↦ let old = due entry e in rw e (ground arith)
  ]

  -- A name that has to be looked up, because the cache has no entry for the pod or one that is five
  -- minutes old, is given again, with no call and with the cache as it was, until five minutes have
  -- passed, whatever the API would say by then.
  pub resolve-again :
      (at later : ℕ) (namespace pod : String) (r : Resolver)
      → IsDue at namespace pod r
      → later < at + cache_ttl
      → let (workload, r1) = resolve api at namespace pod r in
        resolve api later namespace pod r1 ≡ (workload, r1)
  resolve-again at later namespace pod r due soon =
      subst (λ p. resolve api later namespace pod p.1 ≡ (p.0, p.1))
        (sym (resolve-due at namespace pod r due))
        (resolve-again_stored at later namespace pod r (ground arith))

cached-keep_live :
    (live : List (String × String)) (namespace pod : String) (entries : List Entry)
    → cached namespace pod (keep_live live entries)
      ≡ (if is_live live namespace pod then cached namespace pod entries else none)
unfolding cached keep_live has_key
cached-keep_live live namespace pod [] = ground arith
cached-keep_live live namespace pod (e ∷ rest) = elim (Bool-cases (has_key namespace pod e)) [
  | inl same ↦
      let ns : e.namespace ≡ namespace = ground (arith, eq_iff e.namespace namespace) in
      let name : e.pod ≡ pod = ground (arith, eq_iff e.pod pod) in
      let alike : is_live live e.namespace e.pod ≡ is_live live namespace pod =
        ap (λ n. is_live live n e.pod) ns ∙ ap (is_live live namespace) name in
      ground (arith, cached-keep_live live namespace pod rest)
  | inr other ↦ ground (arith, cached-keep_live live namespace pod rest)
]

-- After pruning, the pods that are live are remembered as they were, and no other is.
cached-prune :
    (live : List (String × String)) (namespace pod : String) (r : Resolver)
    → cached namespace pod (prune live r).cache
      ≡ (if is_live live namespace pod then cached namespace pod r.cache else none)
unfolding prune
cached-prune live namespace pod r = cached-keep_live live namespace pod r.cache
