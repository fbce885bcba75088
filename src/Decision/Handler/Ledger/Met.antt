-- ===== src/Decision/Handler/Ledger/Met.antt =====
-- That what follows the classification does what is decided.
use hypertrace.Prelude.{
  ℕ, ◌+◌, String, ◌≡◌, refl, ap, ◌∙◌, Bool, true, false, Option, none, some, List, [], ◌∷◌, ◌++◌,
  if◌then◌else◌,
}
use hypertrace.Float.{Float}
use hypertrace.Messaging.{routing_key_remediation}
use hypertrace.Effects.{Result, value_error, pure, gets, or_raise, publish, ◌>>=◌}
use hypertrace.Effects.Sending.{Sent, delivered, lost, publish-Sent}
use hypertrace.Schemas.{
  Anomaly, Mode, RemediationAction, AnomalyClassification, classification_value, action_of_string,
}
use hypertrace.Tables.{PolicyRow, ActionResult}
use hypertrace.Decision.Authority.{Authority, authority_for}
use hypertrace.Decision.Policy.{is_protected}
use hypertrace.Decision.Matching.{find_matching_policy}
use hypertrace.Decision.Correlation.{Action}
use hypertrace.Decision.Handler.{
  decision_row, record_action, request, score_confidence, act_with, act_on, decide_matched, decide,
  cost_of, is_growth, is_alert_only,
}
use hypertrace.Decision.Handler.Reading.{State}
use hypertrace.Decision.Handler.Ledger.{
  Gate, first_closed, alert_gate, Decision, ignore, withhold, dispatch, gated, floor_gate,
  confidence_gates, decision_under, decision_by, decision, Meets, ignored, refused, withheld,
  dispatched, unsent,
}

module _ {N : Type 0} ⦃f : Float N⦄ where
  -- A row is recorded for an action that is withheld.
  recorded-Meets :
      (m : Anomaly N) (w : State N) (action : RemediationAction) (gate : Gate)
      → Meets m w
          (withhold action gate)
          ((record_action m action gate.result gate.mode >>= λ _. pure tt) w)
  unfolding record_action
  recorded-Meets m w action gate = withheld _ (w.clock w.reads) action gate refl refl

  published-Meets :
      (m : Anomaly N) (w w2 : State N) (at : ℕ) (action : RemediationAction) (name : String)
      (p : Result (Unit {0}) × State N)
      → w2.own.actions_log
        ≡ w.own.actions_log
          ++ decision_row (w.uuid w.made) at m action ActionResult.dispatched Mode.autonomous ∷ []
      → w2.mq.sent ≡ w.mq.sent
      → Sent routing_key_remediation (request (w.uuid w.made) m name) w2 p
      → Meets m w (dispatch action name) p
  published-Meets m w w2 at action name _ rows same (delivered c d) =
      dispatched (record w2 { mq = c }) at action name rows
        (d ∙ ap (λ s. s ++ (routing_key_remediation, request (w.uuid w.made) m name) ∷ []) same)
  published-Meets m w w2 at action name _ rows same (lost c d) =
      unsent (record w2 { mq = c }) at action name rows (d ∙ same)

  dispatched-Meets :
      (m : Anomaly N) (w : State N) (action : RemediationAction) (name : String)
      → Meets m w (dispatch action name) (
          (record_action m action ActionResult.dispatched Mode.autonomous >>= λ id.
          publish routing_key_remediation (request id m name))
            w)
  unfolding record_action
  dispatched-Meets m w action name =
      let at = w.clock w.reads in
      let w2 : State N = record w {
        made = w.made + 1;
        reads = w.reads + 1;
        own = record w.own {
          actions_log =
              w.own.actions_log
              ++ decision_row (w.uuid w.made) at m action ActionResult.dispatched Mode.autonomous
                ∷ [];
        };
      } in
      published-Meets m w w2 at action name _ refl refl
        (publish-Sent routing_key_remediation (request (w.uuid w.made) m name) w2)

  with_approval :
      (m : Anomaly N) (w : State N) (row : PolicyRow N) (action : RemediationAction)
      (approval : Bool)
      → Meets m w
          (gated action row.action (
            first_closed (
              record {
                closed = approval;
                result = ActionResult.pending_approval;
                mode = Mode.approved;
              }
              ∷ [])))
          ((if approval
              then (record_action m action ActionResult.pending_approval Mode.approved >>= λ _.
                  pure tt)
              else (record_action m action ActionResult.dispatched Mode.autonomous >>= λ id.
                  publish routing_key_remediation (request id m row.action)))
            w)
  with_approval m w row action true = recorded-Meets m w action _
  with_approval m w row action false = dispatched-Meets m w action row.action

  with_authority :
      (prefixes : List String) (m : Anomaly N) (w : State N) (row : PolicyRow N)
      (action : RemediationAction) (a : Authority)
      → Meets m w
          (gated action row.action (first_closed (confidence_gates row a)))
          (act_with a m row action w)
  unfolding act_with
  with_authority prefixes m w row action Authority.alert_only = recorded-Meets m w action _
  with_authority prefixes m w row action Authority.approval = recorded-Meets m w action _
  with_authority prefixes m w row action Authority.autonomous =
      with_approval m w row action row.rule_dsl.requires_approval

  behind :
      (m : Anomaly N) (w : State N) (action : RemediationAction) (name : String) (gate : Gate)
      (gs : List Gate) (closed : Bool) (rest : Action N (Unit {0}))
      → Meets m w (gated action name (first_closed gs)) (rest w)
      → Meets m w (gated action name (first_closed (record gate { closed = closed } ∷ gs))) (
          (if closed then (record_action m action gate.result gate.mode >>= λ _. pure tt) else rest)
            w)
  behind m w action name gate gs true rest h = recorded-Meets m w action _
  behind m w action name gate gs false rest h = h

  -- The handler from the protected floor on.
  abbrev from_floor :
      List String → Anomaly N → PolicyRow N → RemediationAction → Action N (Unit {0})
  from_floor prefixes m row action =
      if is_protected m.service prefixes
      then (record_action m action ActionResult.blocked_by_protected_floor Mode.autonomous >>= λ _.
          pure tt)
      else if is_alert_only action
      then (record_action m action ActionResult.alert_only_no_action_taken Mode.autonomous >>= λ _.
          pure tt)
      else act_with (authority_for (score_confidence m)) m row action

  with_action :
      (prefixes : List String) (m : Anomaly N) (w : State N) (row : PolicyRow N)
      (named : Option RemediationAction)
      → Meets m w
          (decision_under prefixes m row named)
          ((or_raise named value_error >>= from_floor prefixes m row) w)
  with_action prefixes m w row none = refused w refl refl
  with_action prefixes m w row (some action) =
      let rest = confidence_gates row (authority_for (score_confidence m)) in
      behind m w action row.action (floor_gate prefixes m) (alert_gate action ∷ rest)
        (is_protected m.service prefixes) _
        (behind m w action row.action (alert_gate action) rest (is_alert_only action) _
          (with_authority prefixes m w row action (authority_for (score_confidence m))))

  decide_matched-Meets :
      (prefixes : List String) (m : Anomaly N) (w : State N) (found : Option (PolicyRow N))
      → Meets m w (decision_by prefixes m found) (decide_matched prefixes m found w)
  unfolding decide_matched act_on
  decide_matched-Meets prefixes m w none = ignored w refl refl
  decide_matched-Meets prefixes m w (some row) =
      with_action prefixes m w row (action_of_string row.action)

  unless_growth :
      (m : Anomaly N) (w : State N) (d : Decision) (rest : Action N (Unit {0})) (growth : Bool)
      → Meets m w d (rest w)
      → Meets m w (if growth then ignore else d) ((if growth then pure tt else rest) w)
  unless_growth m w d rest true h = ignored w refl refl
  unless_growth m w d rest false h = h

  pub decide-Meets :
      (prefixes : List String) (m : Anomaly N) (w : State N) (cause : AnomalyClassification)
      → Meets m w (decision prefixes m w.own.policies cause) (decide prefixes m cause w)
  unfolding decide
  decide-Meets prefixes m w cause =
      let found =
        find_matching_policy w.own.policies (classification_value cause) m.service (cost_of m)
          (score_confidence m) in
      unless_growth m w (decision_by prefixes m found)
        (gets (λ s. s.policies) >>= λ policies. decide_matched prefixes m (
          find_matching_policy policies (classification_value cause) m.service (cost_of m)
            (score_confidence m)))
        (is_growth cause) (decide_matched-Meets prefixes m w found)
