-- ===== src/Decision/Handler/Dispatch.antt =====
-- When the decision engine dispatches a remediation, and what it leaves in the ledger.
use hypertrace.Prelude.{
  ℕ, String, ◌≡◌, ◌≢◌, inl, inr, refl, ap, ◌∙◌, false, Option, none, some, List, [], ◌∷◌, ◌++◌,
  arith, Option-cases, Bool-cases,
}
use hypertrace.Float.{Float}
use hypertrace.Messaging
use hypertrace.Messaging.{routing_key_remediation}
use hypertrace.Messaging.Publish.{publish-Delivered}
use hypertrace.Effects.{Result, ok, err}
use hypertrace.Schemas.{
  Anomaly, Mode, Reason, RemediationRequest, RemediationAction, AnomalyClassification,
  classification_value, action_of_string,
}
use hypertrace.Tables.{PolicyRow, ActionResult}
use hypertrace.Decision.Authority.{Authority, authority_for}
use hypertrace.Decision.Policy.{is_protected}
use hypertrace.Decision.Matching.{find_matching_policy}
use hypertrace.Decision.Correlation.{classify, traffic_verdict}
use hypertrace.Decision.Correlation.Causes.{Cause, classify-Cause}
use hypertrace.Decision.Handler.{
  decision_row, record_action, request, score_confidence, act_with, act_on, decide_matched, decide,
  handle_anomaly, cost_of,
}
use hypertrace.Decision.Handler.Reading.{
  State, IsRead, classify-keeps, prepared, conclude, handle_anomaly-eq-conclude,
}

verdict_of : {a b : AnomalyClassification × Reason} → ok a ≡ ok b → a.0 ≡ b.0
verdict_of e = cc

module _ {N : Type 0} ⦃f : Float N⦄ where
  -- What a dispatch of an anomaly under a policy requires.
  pub record MayDispatch (prefixes : List String) (m : Anomaly N) (row : PolicyRow N) : Type 0 where
    pub unprotected : is_protected m.service prefixes ≡ false
    pub earned : authority_for (score_confidence m) ≡ Authority.autonomous
    pub no_approval : row.rule_dsl.requires_approval ≡ false
    pub acts : action_of_string row.action ≢ some RemediationAction.alert_only

  -- What the engine leaves when it dispatches: one message, and the row that it answers for.
  pub record IsDispatched (m : Anomaly N) (row : PolicyRow N) (w w' : State N) : Type 0 where
    pub action : RemediationAction
    pub at : ℕ
    pub known : action_of_string row.action ≡ some action
    pub sent :
        w'.mq.sent
        ≡ w.mq.sent ++ (routing_key_remediation, request (w.uuid w.made) m row.action) ∷ []
    pub recorded :
        w'.own.actions_log
        ≡ w.own.actions_log
          ++ decision_row (w.uuid w.made) at m action ActionResult.dispatched Mode.autonomous ∷ []

  act_on-MayDispatch :
      (prefixes : List String) (m : Anomaly N) (row : PolicyRow N) (w : State N)
      → (act_on prefixes m row w).1.mq.sent ≢ w.mq.sent
      → MayDispatch prefixes m row
  unfolding act_on act_with record_action
  act_on-MayDispatch prefixes m row w h = ground arith

  act_on-IsDispatched :
      (prefixes : List String) (m : Anomaly N) (row : PolicyRow N) (w : State N)
      → (act_on prefixes m row w).1.mq.sent ≢ w.mq.sent
      → IsDispatched m row w (act_on prefixes m row w).1
  unfolding act_on act_with record_action
  act_on-IsDispatched prefixes m row w h = elim (Option-cases (action_of_string row.action)) [
    | inl e ↦ ground arith
    | inr (action, e) ↦ record {
      action = action;
      at = w.clock w.reads;
      known = e;
      sent = ground (
        arith,
        publish-Delivered routing_key_remediation (request (w.uuid w.made) m row.action) w.mq,
      );
      recorded = ground arith;
    }
  ]

  -- A dispatch of an anomaly with a cause: the policy that matched, what the two permitted, and what
  -- was left.
  pub record Chosen (prefixes : List String) (m : Anomaly N) (cause : AnomalyClassification)
      (w w' : State N) : Type 0 where
    pub row : PolicyRow N
    pub matched :
        find_matching_policy w.own.policies
          (classification_value cause)
          m.service
          (cost_of m)
          (score_confidence m)
        ≡ some row
    pub unexplained : cause ≢ AnomalyClassification.legitimate_traffic_growth
    pub permitted : MayDispatch prefixes m row
    pub left : IsDispatched m row w w'

  -- A dispatch by the whole handler: the message does not say that traffic explains the anomaly, and
  -- the cause is the one that the signals of the service give.
  pub record Dispatch (prefixes : List String) (m : Anomaly N) (w w' : State N) : Type 0 where
    pub unstated : traffic_verdict m.classification ≡ false
    pub cause : AnomalyClassification
    pub reason : Reason
    pub caused : Cause m.service m.classification w (ok (cause, reason))
    pub chosen : Chosen prefixes m cause w w'

  decide_matched-sent :
      (prefixes : List String) (m : Anomaly N) (found : Option (PolicyRow N)) (w : State N)
      → (decide_matched prefixes m found w).1.mq.sent ≢ w.mq.sent
      → (row : PolicyRow N) × (found ≡ some row)
        × MayDispatch prefixes m row
        × IsDispatched m row w (decide_matched prefixes m found w).1
  unfolding decide_matched
  decide_matched-sent prefixes m none w h = absurd (h refl)
  decide_matched-sent prefixes m (some row) w h =
      (row, refl, act_on-MayDispatch prefixes m row w h, act_on-IsDispatched prefixes m row w h)

  decide-sent :
      (prefixes : List String) (m : Anomaly N) (c : AnomalyClassification) (w : State N)
      → (decide prefixes m c w).1.mq.sent ≢ w.mq.sent
      → Chosen prefixes m c w (decide prefixes m c w).1
  unfolding decide
  decide-sent prefixes m AnomalyClassification.legitimate_traffic_growth w h = absurd (h refl)
  decide-sent prefixes m c w h =
      let found =
        find_matching_policy w.own.policies (classification_value c) m.service (cost_of m)
          (score_confidence m) in
      let (row, e, may, left) = decide_matched-sent prefixes m found w h in
      record { row = row; matched = e; unexplained = λ k. cc; permitted = may; left = left }

  conclude-sent :
      (prefixes : List String) (m : Anomaly N) (w : State N)
      (p : Result (AnomalyClassification × Reason) × State N)
      → IsRead m.classification w p
      → Cause m.service m.classification w p.0
      → (conclude prefixes m p).1.mq.sent ≢ w.mq.sent
      → Dispatch prefixes m w (conclude prefixes m p).1
  unfolding conclude
  conclude-sent prefixes m w (ok verdict, w1) read c h =
      let sent : (decide prefixes m verdict.0 (prepared m verdict w1)).1.mq.sent ≢ w1.mq.sent =
        λ e. h (e ∙ ap (λ (c : Messaging.Client RemediationRequest). c.sent) read.mq_same) in
      let d = decide-sent prefixes m verdict.0 (prepared m verdict w1) sent in
      record {
        unstated = elim (Bool-cases (traffic_verdict m.classification)) [
          | inl q ↦ absurd (d.unexplained (verdict_of (read.traffic q)))
          | inr q ↦ q
        ];
        cause = verdict.0;
        reason = verdict.1;
        caused = c;
        chosen = record {
          row = d.row;
          matched = ground (arith, d.matched, read.own_same);
          unexplained = d.unexplained;
          permitted = d.permitted;
          left = record {
            action = d.left.action;
            at = d.left.at;
            known = d.left.known;
            sent = ground (arith, d.left.sent, read.mq_same, read.made_same, read.uuid_same);
            recorded =
                ground (arith, d.left.recorded, read.own_same, read.made_same, read.uuid_same);
          };
        };
      }
  conclude-sent prefixes m w (err e, w1) read c h =
      absurd (h (ap (λ (c : Messaging.Client RemediationRequest). c.sent) read.mq_same))

  -- The engine sends nothing on the bus but a remediation request, and that only for an anomaly
  -- of whose message the detector did not say that traffic explains it, with the cause that the
  -- signals of the service give, under a matching policy that wants no approval and an action
  -- that is not a mere alert, for an unprotected service, at a confidence that earns autonomy; then
  -- the ledger has grown by the one row of the dispatch, which the request names.
  pub handle_anomaly-Dispatch :
      (prefixes : List String) (m : Anomaly N) (w : State N)
      → (handle_anomaly prefixes m w).1.mq.sent ≢ w.mq.sent
      → Dispatch prefixes m w (handle_anomaly prefixes m w).1
  handle_anomaly-Dispatch prefixes m w h = rw handle_anomaly-eq-conclude (
      conclude-sent prefixes m w (classify m.service m.classification w)
        (classify-keeps m.service m.classification w) (classify-Cause m.service m.classification w)
        (rw handle_anomaly-eq-conclude at h))
