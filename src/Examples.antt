-- ===== src/Examples.antt =====
-- Concrete worlds and messages, and the theorems applied to them.
mod Collating
mod Composing
mod Deciding
mod Executing
mod Freezing
mod Detecting
mod Learning
mod Serving
mod Signing
mod Observing
mod Publishing
mod Routing
mod Simulating
mod Trailing
mod Undoing
mod Watching
use hypertrace.Prelude.{ℕ, ◌+◌, ◌*◌, String, Option, none, some, false, pos, ◌==◌, if◌then◌else◌}
use hypertrace.Messaging.{Reply, Client, new}
use hypertrace.Effects.{World}
use hypertrace.Schemas.{Anomaly, Evidence, ResourceRef}
use hypertrace.Tables.{PolicyRow, RuleDsl}

-- A broker that accepts everything, a clock that ticks every millisecond, and fresh identifiers.
abbrev pub willing : {M : Type 0} → Client M
willing = new (λ _. Reply.accepted)

abbrev pub world : {M S : Type 0} → S → World M S
world own = record {
  clock = λ n. 1_000_000_000_000 + n * 1000;
  reads = 0;
  uuid = λ n. if n == 0 then "id-0" else if n == 1 then "id-1" else "id-2";
  made = 0;
  mq = willing;
  own = own;
}

abbrev pub pod_ref : ResourceRef
pod_ref = record {
  cluster = "kind";
  namespace = "shop";
  node = "node-1";
  pod = some "cart-7d9f-x2";
  container = none;
  service = some "cart";
}

abbrev pub no_evidence : Evidence ℕ
no_evidence = record {
  metric = none;
  value = some 2000;
  bucket = none;
  resource = none;
  scores = none;
  confidence = none;
  baseline_mature = none;
  cost_delta_usd_hr = none;
  classification_reason = none;
}

abbrev pub cart_anomaly : Anomaly ℕ
cart_anomaly = record {
  id = "anomaly-1";
  service = "shop/cart";
  score = 9000;
  classification = some "unclassified";
  evidence = no_evidence;
  status = "open";
  created_at = 5;
  confidence = some 900;
}

abbrev pub throttle_policy : PolicyRow ℕ
throttle_policy = record {
  id = "policy-1";
  org_id = "default";
  rule_dsl = record {
    classifications = none;
    min_cost_per_hour = some 1000;
    service_prefix = none;
    requires_approval = false;
    min_confidence = none;
  };
  scope = "*";
  action = "throttle";
  priority = pos 1;
}
