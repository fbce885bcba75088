-- ===== src/Cost/Identity.antt =====
-- What a workload is called, and what is stored and sent under that name.
use hypertrace.Prelude.{
  String, ◌<>◌, ◌≡◌, refl, ◌⊎◌, Option, none, some, List, [], ◌∷◌, ◌++◌, arith,
}
use mathlib.Core.Path.{subst}
use hypertrace.Float.{Float}
use hypertrace.Messaging.{routing_key_cost}
use hypertrace.Messaging.Publish.{publish-Delivered}
use hypertrace.Effects.{World, Result, ok, err, publish_error}
use hypertrace.Schemas.{ResourceRef, MetricEvent, CostEvent}
use hypertrace.Tables.{CostRow}
use hypertrace.Executor.Service.{split_service, IsPlain, split_service-join}
use hypertrace.Cost.{PricingModel, truthy, service_id, cost_row, cost_event, attribute, handle}

-- The executor splits every identifier that cost attribution makes into the namespace and the
-- workload that the collector resolved.
split_service-service_id :
    (r : ResourceRef) (pod workload service : String)
    → truthy r.pod ≡ some pod
    → truthy r.service ≡ some workload
    → IsPlain r.namespace
    → service_id r ≡ some service
    → split_service service ≡ (r.namespace, workload)
unfolding service_id
split_service-service_id r pod workload service p s plain h =
    let made : r.namespace <> ("/" <> workload) ≡ service = ground arith in
    subst (λ t. split_service t ≡ (r.namespace, workload)) made
      (split_service-join r.namespace workload plain)

-- Two pods of one workload in one namespace are billed under one name, whatever the pods are called.
service_id-stable :
    (r q : ResourceRef) (pod other workload : String)
    → truthy r.pod ≡ some pod
    → truthy q.pod ≡ some other
    → truthy r.service ≡ some workload
    → r.service ≡ q.service
    → r.namespace ≡ q.namespace
    → service_id r ≡ service_id q
unfolding service_id
service_id-stable r q pod other workload p o s same_workload same_namespace = ground arith

abbrev pub State : Type 0 → Type 0
State N = World (CostEvent N) (List (CostRow N))

module _ {N : Type 0} ⦃f : Float N⦄ where
  -- What a reading leaves. A reading of a node leaves nothing; one of a pod always leaves a row, and
  -- the message with the same figures just when the handler returns.
  abbrev pub Attributed :
      PricingModel N
      → MetricEvent N
      → State N
      → Option String
      → Result (Unit {0}) × State N
      → Type 0
  Attributed p m w none out = out ≡ (ok tt, w)
  Attributed p m w (some service) (r, w') =
      (w'.own ≡ w.own ++ cost_row p m service (w.clock w.reads) ∷ [])
      × (((r ≡ ok tt)
            × (w'.mq.sent
                ≡ w.mq.sent ++ (routing_key_cost, cost_event p m service (w.clock w.reads)) ∷ []))
          ⊎ ((r ≡ err publish_error) × (w'.mq.sent ≡ w.mq.sent)))

  attribute-Attributed :
      (p : PricingModel N) (m : MetricEvent N) (s : Option String) (w : State N)
      → Attributed p m w s (attribute p m s w)
  unfolding attribute
  attribute-Attributed p m none w = refl
  attribute-Attributed p m (some service) w =
      ground
        (arith, publish-Delivered routing_key_cost (cost_event p m service (w.clock w.reads)) w.mq)

  -- A reading of a node changes nothing; one of a pod stores its cost, and sends it just when the
  -- handler returns.
  pub handle-Attributed :
      (p : PricingModel N) (m : MetricEvent N) (w : State N)
      → Attributed p m w (service_id m.resource) (handle p m w)
  unfolding handle
  handle-Attributed p m w = attribute-Attributed p m (service_id m.resource) w
