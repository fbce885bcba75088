-- ===== src/Examples/Routing.antt =====
-- Who receives an anomaly, and that no two calls of `consume` share a queue.
use hypertrace.Prelude.{
  ◌≡◌, refl, Bool, true, not, ◌&&◌, String, List, [], ◌∷◌, map, select, any_of, str_eq,
}
use hypertrace.Messaging.{routing_key_anomaly, routing_key_remediation}
use hypertrace.Wiring.{subscriptions, receivers}

abbrev distinct : List String → Bool
distinct [] = true
distinct (q ∷ qs) = not (any_of (str_eq q) qs) && distinct qs

anomaly_receivers :
    receivers routing_key_anomaly subscriptions
    ≡ "decision-policy.anomalies" ∷ "api-bff.alerts" ∷ []
unfolding receivers select any_of
anomaly_receivers = refl

remediation_receivers :
    receivers routing_key_remediation subscriptions ≡ "remediation-executor.actions" ∷ []
unfolding receivers select any_of
remediation_receivers = refl

own_queues : distinct (map (λ s. s.queue) subscriptions) ≡ true
unfolding any_of
own_queues = refl
