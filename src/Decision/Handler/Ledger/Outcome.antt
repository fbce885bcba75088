-- ===== src/Decision/Handler/Ledger/Outcome.antt =====
-- How the handler of anomalies ends as a whole.
use hypertrace.Prelude.{String, ◌≡◌, ap, ◌∙◌, Option, some, List, arith}
use mathlib.Core.Path.{subst}
use hypertrace.Float.{Float}
use hypertrace.Messaging.{Client}
use hypertrace.Effects.{Failure, Result, ok, err}
use hypertrace.Schemas.{
  Anomaly, Reason, RemediationRequest, AnomalyClassification, classification_value,
}
use hypertrace.Decision.Correlation.{Engine, classify}
use hypertrace.Decision.Correlation.Causes.{Cause, classify-Cause}
use hypertrace.Decision.Handler.{
  record_action, act_with, act_on, decide_matched, decide, handle_anomaly, reclassify,
}
use hypertrace.Decision.Handler.Reading.{
  State, IsRead, classify-keeps, prepared, conclude, handle_anomaly-eq-conclude,
}
use hypertrace.Decision.Handler.Ledger.{
  Decision, decision, Meets, ignored, refused, withheld, dispatched, unsent,
}
use hypertrace.Decision.Handler.Ledger.Met.{decide-Meets}

module _ {N : Type 0} ⦃f : Float N⦄ where
  decide-anomalies :
      (prefixes : List String) (m : Anomaly N) (w : State N) (cause : AnomalyClassification)
      → (decide prefixes m cause w).1.own.anomalies ≡ w.own.anomalies
  unfolding decide decide_matched act_on act_with record_action
  decide-anomalies prefixes m w cause = ground arith

  -- What is done in a state that differs in what the decision does not read is done in both.
  carried :
      (m : Anomaly N) (w w0 : State N) (d : Decision) (p : Result (Unit {0}) × State N)
      → w.own.actions_log ≡ w0.own.actions_log
      → w.mq.sent ≡ w0.mq.sent
      → w.uuid w.made ≡ w0.uuid w0.made
      → Meets m w d p
      → Meets m w0 d p
  carried m w w0 _ _ rows mq id (ignored w' a b) = ignored w' (a ∙ rows) (b ∙ mq)
  carried m w w0 _ _ rows mq id (refused w' a b) = refused w' (a ∙ rows) (b ∙ mq)
  carried m w w0 _ _ rows mq id (withheld w' at action gate a b) =
      withheld w' at action gate (ground (arith, a, rows, id)) (b ∙ mq)
  carried m w w0 _ _ rows mq id (dispatched w' at action name a b) =
      dispatched w' at action name (ground (arith, a, rows, id)) (ground (arith, b, mq, id))
  carried m w w0 _ _ rows mq id (unsent w' at action name a b) =
      unsent w' at action name (ground (arith, a, rows, id)) (b ∙ mq)

  -- How the handler ends: the cause that it found, the anomaly's row reclassified by it, and what was
  -- decided of that cause, done.
  pub record Decided (prefixes : List String) (m : Anomaly N) (w : State N)
      (p : Result (Unit {0}) × State N) : Type 0 where
    pub cause : AnomalyClassification
    pub reason : Reason
    pub because : Cause m.service m.classification w (ok (cause, reason))
    pub reclassified :
        p.1.own.anomalies
        ≡ reclassify m.id
            (classification_value cause)
            (record m.evidence { classification_reason = some reason })
            w.own.anomalies
    pub meets : Meets m w (decision prefixes m w.own.policies cause) p

  not_raised :
      (service : String) (verdict : Option String) (w : State N) (e : Failure)
      → ¬ Cause service verdict w (err e)
  not_raised service verdict w e h = elim h [ ]

  conclude-Decided :
      (prefixes : List String) (m : Anomaly N) (w : State N)
      (p : Result (AnomalyClassification × Reason) × State N)
      → IsRead m.classification w p
      → Cause m.service m.classification w p.0
      → Decided prefixes m w (conclude prefixes m p)
  unfolding conclude prepared
  conclude-Decided prefixes m w (ok (cause, reason), w1) read because =
      let w2 : State N = prepared m (cause, reason) w1 in
      record {
        cause = cause;
        reason = reason;
        because = because;
        reclassified = ground (arith, decide-anomalies prefixes m w2 cause, read.own_same);
        meets =
            subst
              (λ policies.
                Meets m w (decision prefixes m policies cause) (decide prefixes m cause w2))
              (ap (λ (s : Engine N). s.policies) read.own_same)
              (carried m w2 w _ _ (ap (λ (s : Engine N). s.actions_log) read.own_same)
                (ap (λ (c : Client RemediationRequest). c.sent) read.mq_same)
                (ground (arith, read.made_same, read.uuid_same))
                (decide-Meets prefixes m w2 cause));
      }
  conclude-Decided prefixes m w (err e, w1) read because = absurd (not_raised _ _ w e because)

  -- The handler of anomalies finds the cause of the anomaly, reclassifies its row, and does what is
  -- decided of that cause: nothing when traffic explains it or no policy is found, and otherwise,
  -- under the policy that is found, one row in the ledger that says which gate was the first
  -- to close, or, when none did, a dispatched row and the request that names it. It raises where the
  -- policy names no action, with no row, and where the publish raises, after the dispatched row.
  pub handle_anomaly-Decided :
      (prefixes : List String) (m : Anomaly N) (w : State N)
      → Decided prefixes m w (handle_anomaly prefixes m w)
  handle_anomaly-Decided prefixes m w = rw handle_anomaly-eq-conclude (
      conclude-Decided prefixes m w (classify m.service m.classification w)
        (classify-keeps m.service m.classification w) (classify-Cause m.service m.classification w))
