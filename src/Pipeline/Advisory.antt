-- ===== src/Pipeline/Advisory.antt =====
-- What the detector publishes, handled by the decision engine.
use hypertrace.Prelude.{String, ◌≡◌, ◌≢◌, refl, ap, ◌∙◌, sym, List, [], ◌∷◌, ◌++◌, arith}
use mathlib.Core.Path.{subst}
use mathlib.Core.List.{append_cancel_left, head-eq_of_cons-eq, append-nil, nil≢cons}
use hypertrace.Float.{Float}
use hypertrace.Float.Laws.{IsOrdered, ◌≼◌}
use hypertrace.Messaging.{routing_key_anomaly}
use hypertrace.Effects.{Result}
use hypertrace.Schemas.{Anomaly, AnomalyClassification}
use hypertrace.Tables.{PolicyRow}
use hypertrace.Behaviour.Confidence.Bounds.{authority_800}
use hypertrace.Behaviour.Handler.{CostMessage, handle_cost}
use hypertrace.Behaviour.Handler.Flagging.{Flag, IsFlagged, handle_cost-Flag}
use hypertrace.Behaviour.Handler.Flagging as Detector
use hypertrace.Decision.Authority.{Authority, authority_for}
use hypertrace.Decision.Handler.{handle_anomaly, score_confidence}
use hypertrace.Decision.Handler.Reading.{State}
use hypertrace.Decision.Handler.Ledger.{
  Decision, dispatch, decision, Meets, ignored, refused, withheld, dispatched, unsent,
}
use hypertrace.Decision.Handler.Ledger.Outcome.{handle_anomaly-Decided}

module _ {A : Type 0} where
  pub concat≢self : (xs : List A) (a : A) → xs ++ a ∷ [] ≢ xs
  concat≢self xs a h = nil≢cons (sym (append_cancel_left xs (a ∷ []) [] (h ∙ sym (append-nil xs))))

module _ {N : Type 0} ⦃f : Float N⦄ where
  quiet :
      (m : Anomaly N) (w : State N) (d : Decision) (p : Result (Unit {0}) × State N)
      → ((action : _) (name : String) → d ≢ dispatch action name)
      → Meets m w d p
      → p.1.mq.sent ≡ w.mq.sent
  quiet m w _ _ h (ignored w' rows same) = same
  quiet m w _ _ h (refused w' rows same) = same
  quiet m w _ _ h (withheld w' at action gate rows same) = same
  quiet m w _ _ h (dispatched w' at action name rows out) = absurd (h action name refl)
  quiet m w _ _ h (unsent w' at action name rows same) = same

  decision-not_dispatch :
      (prefixes : List String) (m : Anomaly N) (policies : List (PolicyRow N))
      (cause : AnomalyClassification)
      → authority_for (score_confidence m) ≢ Authority.autonomous
      → (action : _) (name : String) → decision prefixes m policies cause ≢ dispatch action name
  decision-not_dispatch prefixes m policies cause h action name = ground arith

module _ {N : Type 0} ⦃f : Float N⦄ (o : IsOrdered N) where
  -- What the detector published is that anomaly, whose confidence is at most 0.8 wherever it is read.
  pub published-low :
      (m : CostMessage N) (w w' : Detector.State N) (a : Anomaly N)
      → w'.mq.sent ≡ w.mq.sent ++ (routing_key_anomaly, a) ∷ []
      → Flag o m w w'
      → score_confidence a ≼ f.milli 800
  unfolding score_confidence
  published-low m w w' a sent flag =
      let l = flag.left in
      let same =
        ap (λ p. p.1) (head-eq_of_cons-eq (append_cancel_left w.mq.sent _ _ (sym sent ∙ l.sent))) in
      subst (λ a. score_confidence a ≼ f.milli 800) (sym same)
        (ground (arith, l.low, o.milli_mono 0 800))

  -- Where floats are finite, the anomaly that a call of the detector published is never dispatched:
  -- whatever the state and the policies of the engine that handles it, nothing is sent.
  handle_cost-handle_anomaly :
      (prefixes : List String) (m : CostMessage N) (w : Detector.State N) (a : Anomaly N)
      (w2 : State N)
      → (handle_cost m w).1.mq.sent ≡ w.mq.sent ++ (routing_key_anomaly, a) ∷ []
      → (handle_anomaly prefixes a w2).1.mq.sent ≡ w2.mq.sent
  handle_cost-handle_anomaly prefixes m w a w2 sent =
      let flag = handle_cost-Flag o m w (λ e. concat≢self w.mq.sent _ (sym sent ∙ e)) in
      let low = published-low m w (handle_cost m w).1 a sent flag in
      let d = handle_anomaly-Decided prefixes a w2 in
      quiet a w2 _ _
        (decision-not_dispatch prefixes a w2.own.policies d.cause (authority_800 o _ low)) d.meets
