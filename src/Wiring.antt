-- ===== src/Wiring.antt =====
-- services: the queues that each `main` consumes, in the order of the calls, and who receives what:
-- the exchange gives a message to every queue that is bound to its routing key. Only
-- `_consume_forever` of the API is not in a `main`.
use hypertrace.Prelude.{
  Option, none, some, String, Bool, true, false, List, [], ◌∷◌, ◌++◌, map, select, any_of, str_eq,
}
use hypertrace.Messaging.{
  routing_key_metric, routing_key_lifecycle, routing_key_cost, routing_key_anomaly,
  routing_key_remediation, routing_key_security, routing_key_traffic,
}

-- A call of `consume`, and whether a thread of its own makes it.
pub record Subscription : Type 0 where
  pub queue : String
  pub routing_keys : List String
  pub in_thread : Bool

abbrev pub behaviour_analysis : List Subscription
behaviour_analysis =
    record {
      queue = "behaviour-analysis.traffic";
      routing_keys = routing_key_traffic ∷ [];
      in_thread = true;
    }
    ∷ record {
      queue = "behaviour-analysis.cost";
      routing_keys = routing_key_cost ∷ [];
      in_thread = false;
    }
    ∷ []

abbrev pub decision_policy : List Subscription
decision_policy =
    record {
      queue = "decision-policy.lifecycle";
      routing_keys = routing_key_lifecycle ∷ [];
      in_thread = true;
    }
    ∷ record {
      queue = "decision-policy.security";
      routing_keys = routing_key_security ∷ [];
      in_thread = true;
    }
    ∷ record {
      queue = "decision-policy.anomalies";
      routing_keys = routing_key_anomaly ∷ [];
      in_thread = false;
    }
    ∷ []

abbrev pub remediation_executor : List Subscription
remediation_executor =
    record {
      queue = "remediation-executor.actions";
      routing_keys = routing_key_remediation ∷ [];
      in_thread = false;
    }
    ∷ []

abbrev pub cost_intelligence : List Subscription
cost_intelligence =
    record {
      queue = "cost-intelligence.metrics";
      routing_keys = routing_key_metric ∷ [];
      in_thread = false;
    }
    ∷ []

abbrev pub api_bff : List Subscription
api_bff =
    record { queue = "api-bff.alerts"; routing_keys = routing_key_anomaly ∷ []; in_thread = true }
    ∷ []

abbrev pub subscriptions : List Subscription
subscriptions =
    behaviour_analysis
    ++ (decision_policy ++ (remediation_executor ++ (cost_intelligence ++ api_bff)))

-- The queues that a message with a key goes to.
unfoldable pub receivers : String → List Subscription → List String
receivers key subs = map (λ s. s.queue) (select (λ s. any_of (str_eq key) s.routing_keys) subs)

-- How the Kubernetes client finds its configuration: the `try` at the start of the `main` of the
-- collector and of the executor. The two ways are arguments: `none` is a `ConfigException`, which
-- leaves `main` when the second way raises it.
unfoldable pub load_config : {C : Type 0} → Option C → Option C → Option C
load_config (some c) kube = some c
load_config none kube = kube
