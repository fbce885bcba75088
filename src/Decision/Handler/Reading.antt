-- ===== src/Decision/Handler/Reading.antt =====
-- `_handle_anomaly` as its classification, which changes nothing but the clock, and the rest.
use hypertrace.Prelude.{String, ◌≡◌, true, Option, some, List, arith}
use hypertrace.Float.{Float}
use hypertrace.Effects.{World, Result, ok, err}
use hypertrace.Schemas.{
  Anomaly, Reason, RemediationRequest, AnomalyClassification, classification_value,
}
use hypertrace.Decision.Correlation.{
  Engine, classify, recent_deployment, recent_security_signal, traffic_verdict,
}
use hypertrace.Decision.Handler.{decide, handle_anomaly, reclassify}

-- The world of the engine.
abbrev pub State : Type 0 → Type 0
State N = World RemediationRequest (Engine N)

module _ {N : Type 0} ⦃f : Float N⦄ where
  -- Classification reads the clock and the maps, and changes nothing else.
  pub record IsRead (v : Option String) (w : State N)
      (p : Result (AnomalyClassification × Reason) × State N) : Type 0 where
    pub mq_same : p.1.mq ≡ w.mq
    pub own_same : p.1.own ≡ w.own
    pub made_same : p.1.made ≡ w.made
    pub uuid_same : p.1.uuid ≡ w.uuid
    pub traffic :
        traffic_verdict v ≡ true
        → p.0 ≡ ok (AnomalyClassification.legitimate_traffic_growth, Reason.traffic_explains)
    pub otherwise :
        (r : Reason)
        → p.0 ≡ ok (AnomalyClassification.legitimate_traffic_growth, r)
        → traffic_verdict v ≡ true

  pub classify-keeps :
      (service : String) (v : Option String) (w : State N) → IsRead v w (classify service v w)
  unfolding classify recent_security_signal recent_deployment
  classify-keeps service v w = record {
    mq_same = ground arith;
    own_same = ground arith;
    made_same = ground arith;
    uuid_same = ground arith;
    traffic = λ h. ground arith;
    otherwise = λ r h. ground arith;
  }

  unfoldable pub prepared : Anomaly N → AnomalyClassification × Reason → State N → State N
  prepared m verdict w = record w {
    own = record w.own {
      anomalies =
          reclassify m.id (classification_value verdict.0)
            (record m.evidence { classification_reason = some verdict.1 }) w.own.anomalies;
    };
  }

  -- The rest of the handler, by what the classification answered.
  unfoldable pub conclude :
      List String
      → Anomaly N
      → Result (AnomalyClassification × Reason) × State N
      → Result (Unit {0}) × State N
  unfolding prepared
  conclude prefixes m (ok verdict, w) = decide prefixes m verdict.0 (prepared m verdict w)
  conclude prefixes m (err e, w) = (err e, w)

  pub handle_anomaly-eq-conclude :
      (prefixes : List String) (m : Anomaly N) (w : State N)
      → handle_anomaly prefixes m w ≡ conclude prefixes m (classify m.service m.classification w)
  unfolding handle_anomaly conclude
  handle_anomaly-eq-conclude prefixes m w = ground arith
