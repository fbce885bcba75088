-- ===== src/Examples/Deciding.antt =====
-- The decision engine's theorems at an anomaly that a policy throttles.
use hypertrace.Prelude.{
  none, ℕ, ◌≡◌, ◌≢◌, refl, sym, lookup, [], ◌∷◌, sort_by, any_of, All, ◌⊎◌, leb_ℤ, true, false,
}
use mathlib.Core.List.{Memᴰ, nil≢cons}
use hypertrace.Float.Decimal.{decimal}
use hypertrace.Messaging
use hypertrace.Schemas.{action_of_string}
use hypertrace.Decision.Authority.{authority_for}
use hypertrace.Decision.Policy.{is_protected, policy_matches, protected_namespace_prefixes}
use hypertrace.Decision.Matching.{first_match, find_matching_policy, find_matching_policy_least}
use hypertrace.Decision.Correlation.{Engine, classify, recent_deployment, recent_security_signal}
use hypertrace.Decision.Correlation.Causes.{Cause, classify-Cause}
use hypertrace.Decision.Handler.{
  record_action, reclassify, score_confidence, act_with, act_on, decide_matched, decide,
  handle_anomaly,
}
use hypertrace.Decision.Handler.Reading.{State}
use hypertrace.Decision.Handler.Dispatch.{Dispatch, handle_anomaly-Dispatch}
use hypertrace.Decision.Handler.Ledger.Outcome.{Decided, handle_anomaly-Decided}
use hypertrace.Examples.{world, cart_anomaly, throttle_policy}

abbrev pub engine : Engine ℕ
engine = record {
  recent_events = [];
  recent_security = [];
  policies = throttle_policy ∷ [];
  actions_log = [];
  anomalies = [];
}

abbrev pub before : State ℕ
before = world engine

dispatches :
    (handle_anomaly protected_namespace_prefixes cart_anomaly before).1.mq.sent ≢ before.mq.sent
unfolding handle_anomaly decide decide_matched act_on act_with record_action score_confidence
    authority_for find_matching_policy policy_matches is_protected first_match classify
    recent_deployment recent_security_signal sort_by any_of reclassify lookup action_of_string
    Messaging.publish Messaging.attempt Messaging.ensure_channel Messaging.call
dispatches = λ e. nil≢cons (sym e)

handle_anomaly-Dispatch_example :
    Dispatch protected_namespace_prefixes cart_anomaly before
      (handle_anomaly protected_namespace_prefixes cart_anomaly before).1
handle_anomaly-Dispatch_example =
    handle_anomaly-Dispatch protected_namespace_prefixes cart_anomaly before dispatches

handle_anomaly-Decided_example :
    Decided protected_namespace_prefixes cart_anomaly before
      (handle_anomaly protected_namespace_prefixes cart_anomaly before)
handle_anomaly-Decided_example =
    handle_anomaly-Decided protected_namespace_prefixes cart_anomaly before

find_matching_policy_least_example :
    Memᴰ throttle_policy (throttle_policy ∷ [])
    × (policy_matches throttle_policy.rule_dsl "unclassified" "shop/cart" 2000 900 ≡ true)
    × All
        (λ q.
          (policy_matches q.rule_dsl "unclassified" "shop/cart" 2000 900 ≡ false)
          ⊎ (leb_ℤ throttle_policy.priority q.priority ≡ true))
        (throttle_policy ∷ [])
unfolding find_matching_policy first_match policy_matches sort_by
find_matching_policy_least_example =
    find_matching_policy_least (throttle_policy ∷ []) "unclassified" "shop/cart" 2000 900
      throttle_policy refl

classify-Cause_example : Cause "shop/cart" none before (classify "shop/cart" none before).0
classify-Cause_example = classify-Cause "shop/cart" none before
