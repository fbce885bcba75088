-- ===== src/Decision/Correlation.antt =====
-- services/decision-policy/app/main.py: the two in-memory maps, the handlers that fill them, and the
-- joint classification that reads them.
pub mod Causes
use hypertrace.Prelude.{
  ℕ, ◌+◌, String, ◌<>◌, Bool, false, Option, none, some, List, [], ◌∷◌, Dict, lookup, insert, leb,
  ltb, str_eq, any_of, if◌then◌else◌,
}
use hypertrace.Effects.{Exec, pure, gets, modify, now, minutes, ◌>>=◌}
use hypertrace.Schemas.{
  ResourceRef, LifecycleEvent, lifecycle_value, SecuritySignal, RemediationRequest,
  AnomalyClassification, classification_value, Reason,
}
use hypertrace.Tables.{PolicyRow, AnomalyRow, ActionRow}

abbrev pub recent_deployment_window_minutes : ℕ
recent_deployment_window_minutes = 15

abbrev pub security_signal_window_minutes : ℕ
security_signal_window_minutes = 10

abbrev pub deployment_like_events : List String
deployment_like_events = "deployment_scaled" ∷ "pod_restarted" ∷ "pod_created" ∷ "hpa_scaled" ∷ []

-- The module's maps, and the tables that it reads and writes.
pub record Engine (N : Type 0) : Type 0 where
  pub recent_events : Dict ℕ
  pub recent_security : Dict (ℕ × String)
  pub policies : List (PolicyRow N)
  pub actions_log : List ActionRow
  pub anomalies : List (AnomalyRow N)

abbrev pub Action : Type 0 → Type 0 → Type 0
Action N A = Exec RemediationRequest (Engine N) A

-- The service that a lifecycle event is filed under: `none` where the code returns without filing.
abbrev pub event_service : ResourceRef → Option String
event_service r = elim r.pod [
  | some p ↦
      if str_eq p ""
      then (if str_eq r.namespace "" then none else some r.namespace)
      else some (r.namespace <> ("/" <> p))
  | none ↦ if str_eq r.namespace "" then none else some r.namespace
]

abbrev pub traffic_verdict : Option String → Bool
traffic_verdict none = false
traffic_verdict (some v) =
    str_eq v (classification_value AnomalyClassification.legitimate_traffic_growth)

module _ {N : Type 0} where
  unfoldable pub handle_lifecycle : LifecycleEvent → Action N (Unit {0})
  handle_lifecycle e =
      if any_of (str_eq (lifecycle_value e.event_type)) deployment_like_events
      then elim (event_service e.resource) [
        | none ↦ pure tt
        | some service ↦ do
          t ← now
          modify (λ s. record s { recent_events = insert service t s.recent_events })
      ]
      else pure tt

  unfoldable pub handle_security_signal : SecuritySignal → Action N (Unit {0})
  handle_security_signal m = do
    t ← now
    modify (λ s. record s { recent_security = insert m.service (t, m.rule) s.recent_security })

  unfoldable pub recent_deployment : String → Action N Bool
  recent_deployment service = do
    last ← gets (λ s. lookup service s.recent_events)
    elim last [
      | none ↦ pure false
      | some at ↦ do t ← now; pure (leb t (at + minutes recent_deployment_window_minutes))
    ]

  unfoldable pub recent_security_signal : String → Action N (Option String)
  recent_security_signal service = do
    entry ← gets (λ s. lookup service s.recent_security)
    elim entry [
      | none ↦ pure none
      | some (seen_at, rule) ↦ do
        t ← now
        pure (if ltb (seen_at + minutes security_signal_window_minutes) t then none else some rule)
    ]

  -- `_classify`
  abbrev classify_cause : String → Action N (AnomalyClassification × Reason)
  classify_cause service = do
    rule ← recent_security_signal service
    elim rule [
      | some r ↦ pure (AnomalyClassification.suspected_abuse, Reason.security_rule r)
      | none ↦ do
        deployed ← recent_deployment service
        pure (
            if deployed
            then (AnomalyClassification.likely_bug_from_deployment, Reason.recent_deployment)
            else (AnomalyClassification.misconfiguration_or_waste, Reason.no_reason))
    ]

  unfoldable pub classify : String → Option String → Action N (AnomalyClassification × Reason)
  classify service verdict =
      if traffic_verdict verdict
      then pure (AnomalyClassification.legitimate_traffic_growth, Reason.traffic_explains)
      else classify_cause service
