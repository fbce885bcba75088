-- ===== src/Pipeline/Trail/Decided.antt =====
-- What the decision engine adds to the audit trail.
use hypertrace.Prelude.{
  String, ◌≡◌, refl, true, false, inl, inr, Option, none, some, List, eq_iff, arith, Option-cases,
}
use hypertrace.Float.{Float}
use hypertrace.Effects.{Result}
use hypertrace.Schemas.{
  Anomaly, AnomalyClassification, RemediationAction, action_value, action_of_string,
}
use hypertrace.Tables.{ActionRow, PolicyRow}
use hypertrace.Decision.Authority.{Authority, authority_for}
use hypertrace.Decision.Policy.{is_protected}
use hypertrace.Decision.Handler.{handle_anomaly, score_confidence}
use hypertrace.Decision.Handler.Reading.{State}
use hypertrace.Decision.Handler.Ledger.{
  Decision, withhold, dispatch, gates, first_closed, gated, decision, decision_under, decision_by,
  Meets, ignored, refused, withheld, dispatched, unsent,
}
use hypertrace.Decision.Handler.Ledger.Outcome.{handle_anomaly-Decided}
use hypertrace.Pipeline.Trail.{is_withheld, withheld as kept, trusted, System}
use hypertrace.Pipeline.Trail.Growth.{Growth, same, noted, ordered}

-- A name that is read as an action is the text of that action.
action_value-action_of_string :
    (name : String) (action : RemediationAction)
    → action_of_string name ≡ some action
    → action_value action ≡ name
unfolding action_of_string
action_value-action_of_string name action h = ground (
  arith,
  eq_iff name "alert_only",
  eq_iff name "throttle",
  eq_iff name "freeze_scaling",
  eq_iff name "quarantine",
  eq_iff name "terminate",
)

module _ {N : Type 0} ⦃f : Float N⦄ where
  -- What a decision may be: an action that is withheld has a result that says so, and one that is
  -- dispatched has the name of the policy, and the anomaly earned it.
  abbrev IsProper : List String → Anomaly N → Decision → Type 0
  IsProper prefixes m (withhold action gate) = is_withheld gate.result ≡ true
  IsProper prefixes m (dispatch action name) =
      (action_value action ≡ name)
      × (authority_for (score_confidence m) ≡ Authority.autonomous)
      × (is_protected m.service prefixes ≡ false)
  IsProper prefixes m _ = Unit

  -- An anomaly for which the engine wrote a row on its own authority, one of those that it is given.
  pub record Earned (prefixes : List String) (P : Anomaly N → Type 0) (row : ActionRow)
      : Type 0 where
    pub anomaly : Anomaly N
    pub given : P anomaly
    pub about : row.anomaly_id ≡ some anomaly.id
    pub target : row.target ≡ some anomaly.service
    pub earned : authority_for (score_confidence anomaly) ≡ Authority.autonomous
    pub unprotected : is_protected anomaly.service prefixes ≡ false

  gates-quiet :
      (prefixes : List String) (m : Anomaly N) (row : PolicyRow N) (action : RemediationAction)
      (name : String)
      → action_of_string name ≡ some action
      → IsProper prefixes m (gated action name (first_closed (gates prefixes m row action)))
  gates-quiet prefixes m row action name h =
      let named = action_value-action_of_string name action h in ground arith

  decision_under-IsProper :
      (prefixes : List String) (m : Anomaly N) (row : PolicyRow N)
      → IsProper prefixes m (decision_under prefixes m row (action_of_string row.action))
  decision_under-IsProper prefixes m row = elim (Option-cases (action_of_string row.action)) [
    | inl e ↦ rw e tt
    | inr (action, e) ↦ rw e (gates-quiet prefixes m row action row.action e)
  ]

  decision_by-IsProper :
      (prefixes : List String) (m : Anomaly N) (found : Option (PolicyRow N))
      → IsProper prefixes m (decision_by prefixes m found)
  decision_by-IsProper prefixes m none = tt
  decision_by-IsProper prefixes m (some row) = decision_under-IsProper prefixes m row

  decision-IsProper :
      (prefixes : List String) (m : Anomaly N) (policies : List (PolicyRow N))
      (cause : AnomalyClassification)
      → IsProper prefixes m (decision prefixes m policies cause)
  decision-IsProper prefixes m policies AnomalyClassification.legitimate_traffic_growth = tt
  decision-IsProper prefixes m policies _ = decision_by-IsProper prefixes m _

  unfoldable pub shared : State N → System
  shared w = record { ledger = w.own.actions_log; bus = w.mq.sent }

  Meets-Growth :
      (prefixes : List String) (P : Anomaly N → Type 0) (m : Anomaly N) (w : State N) (d : Decision)
      (p : Result (Unit {0}) × State N)
      → P m
      → IsProper prefixes m d
      → Meets m w d p
      → Growth (Earned prefixes P) (shared w) (shared p.1)
  unfolding shared
  Meets-Growth prefixes P m w _ _ given h (ignored w' rows quiet) = same _ _ rows quiet
  Meets-Growth prefixes P m w _ _ given h (refused w' rows quiet) = same _ _ rows quiet
  Meets-Growth prefixes P m w _ _ given h (withheld w' at action gate rows quiet) =
      noted _ _ _ (kept refl h) rows quiet
  Meets-Growth prefixes P m w _ _ given h (dispatched w' at action name rows out) =
      ordered _ _ _ _ _
        (trusted refl refl refl (record {
          anomaly = m;
          given = given;
          about = refl;
          target = refl;
          earned = h.1;
          unprotected = h.2;
        }))
        refl
        (record {
          dispatched = refl;
          action_same = h.0;
          anomaly_same = refl;
          target_same = inl refl;
        })
        rows out
  Meets-Growth prefixes P m w _ _ given h (unsent w' at action name rows quiet) =
      noted _ _ _
        (trusted refl refl refl (record {
          anomaly = m;
          given = given;
          about = refl;
          target = refl;
          earned = h.1;
          unprotected = h.2;
        }))
        rows quiet

  -- A call of the engine's handler.
  pub handle_anomaly-Growth :
      (prefixes : List String) (P : Anomaly N → Type 0) (m : Anomaly N) (w : State N)
      → P m
      → Growth (Earned prefixes P) (shared w) (shared (handle_anomaly prefixes m w).1)
  handle_anomaly-Growth prefixes P m w given =
      let d = handle_anomaly-Decided prefixes m w in
      Meets-Growth prefixes P m w _ _ given (decision-IsProper prefixes m w.own.policies d.cause)
        d.meets
