-- ===== src/Examples/Freezing.antt =====
-- A cluster of one autoscaler, whose state is its ceiling, and runs of the executor.
use hypertrace.Prelude.{ℕ, ◌≡◌, refl, sym, none, some, [], ◌∷◌, ap, ◌∙◌, arith, show}
use mathlib.Core.Path.{subst}
use mathlib.Core.List.{Memᴰ}
use mathlib.Core.List.Memᴰ.{not-nil}
use hypertrace.Effects.{ok, err, api_error}
use hypertrace.Tables.{PriorState, ActionResult}
use hypertrace.Executor.Cluster.{Kubernetes, Hpa, CeilingIs, IsConsistent}
use hypertrace.Executor.Service.{split_service}
use hypertrace.Executor.Actions.{
  Outcome, freeze_scaling, freeze_listed, freeze_hpa, find_hpa, rollback,
}
use hypertrace.Executor.Actions.Freeze.{IsFrozen, rollback-freeze_scaling}

abbrev scaler : ℕ → Hpa
scaler n = record {
  name = "cart-hpa";
  target = "cart";
  max_replicas = n;
  current_replicas = some 3;
}

abbrev scaled : Kubernetes
scaled = record {
  Cluster = ℕ;
  read_deployment = λ c name namespace. err (api_error 404);
  patch_deployment = λ c name namespace container cpu. ok c;
  list_hpas = λ c namespace. ok (scaler c ∷ []);
  patch_hpa = λ c name namespace n. ok n;
}

only_scaler : (c : ℕ) (h : Hpa) → Memᴰ h (scaler c ∷ []) → h ≡ scaler c
only_scaler c h (Memᴰ.head e) = e
only_scaler c h (Memᴰ.tail m) = absurd (not-nil m)

scaled-IsConsistent : IsConsistent scaled
scaled-IsConsistent = record {
  read-patch = λ c c' name namespace container before cpu h p. absurd (ground (arith, h.read));
  list-patch = λ c c' hpa namespace before replicas h p.
      let listed : scaler c ∷ [] ≡ h.listed = ground (arith, h.read) in
      let same = only_scaler c h.scaler (subst (Memᴰ h.scaler) (sym listed) h.member) in
      record {
        listed = scaler c' ∷ [];
        scaler = scaler c';
        read = refl;
        member = Memᴰ.head refl;
        named = ap (λ (s : Hpa). s.name) (sym same) ∙ h.named;
        ceiling = ground (arith, p);
      };
}

abbrev done : Outcome
done = record {
  status = ActionResult.executed;
  reason = "froze cart-hpa maxReplicas at 3";
  rollback_ref = some (PriorState.hpa_max_replicas "shop" "cart-hpa" 10);
}

abbrev undone : Outcome
undone = record {
  status = ActionResult.rolled_back;
  reason = "restored cart-hpa maxReplicas to 10";
  rollback_ref = none;
}

rollback-freeze_scaling_example :
    (frozen : IsFrozen scaled scaled-IsConsistent
      (split_service "shop/cart").0
      (split_service "shop/cart").1
      10
      3
      done)
    × CeilingIs scaled 10
        (split_service "shop/cart").0
        frozen.scaler.name
        frozen.scaler.max_replicas
unfolding freeze_scaling freeze_listed freeze_hpa find_hpa split_service rollback show
rollback-freeze_scaling_example =
    rollback-freeze_scaling scaled scaled-IsConsistent "shop/cart" 10 3 10 done undone
      (PriorState.hpa_max_replicas "shop" "cart-hpa" 10) refl refl refl refl
