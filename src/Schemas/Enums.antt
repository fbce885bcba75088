-- ===== src/Schemas/Enums.antt =====
-- The enumerations of schemas.py with their values.
use hypertrace.Prelude.{String, ◌≡◌, refl, Option, none, some, str_eq, if◌then◌else◌}

pub data LifecycleEventType : Type 0 where
  pod_created pod_deleted pod_restarted pod_oom_killed deployment_scaled hpa_scaled :
      LifecycleEventType

pub data AnomalyClassification : Type 0 where
  legitimate_traffic_growth likely_bug_from_deployment misconfiguration_or_waste :
      AnomalyClassification
  suspected_abuse unclassified : AnomalyClassification

pub data RemediationAction : Type 0 where
  alert_only throttle freeze_scaling quarantine terminate : RemediationAction

abbrev pub lifecycle_value : LifecycleEventType → String
lifecycle_value LifecycleEventType.pod_created = "pod_created"
lifecycle_value LifecycleEventType.pod_deleted = "pod_deleted"
lifecycle_value LifecycleEventType.pod_restarted = "pod_restarted"
lifecycle_value LifecycleEventType.pod_oom_killed = "pod_oom_killed"
lifecycle_value LifecycleEventType.deployment_scaled = "deployment_scaled"
lifecycle_value LifecycleEventType.hpa_scaled = "hpa_scaled"

abbrev pub classification_value : AnomalyClassification → String
classification_value AnomalyClassification.legitimate_traffic_growth = "legitimate_traffic_growth"
classification_value AnomalyClassification.likely_bug_from_deployment = "likely_bug_from_deployment"
classification_value AnomalyClassification.misconfiguration_or_waste = "misconfiguration_or_waste"
classification_value AnomalyClassification.suspected_abuse = "suspected_abuse"
classification_value AnomalyClassification.unclassified = "unclassified"

abbrev pub action_value : RemediationAction → String
action_value RemediationAction.alert_only = "alert_only"
action_value RemediationAction.throttle = "throttle"
action_value RemediationAction.freeze_scaling = "freeze_scaling"
action_value RemediationAction.quarantine = "quarantine"
action_value RemediationAction.terminate = "terminate"

-- `RemediationAction(text)`, which raises ValueError on any other text
unfoldable pub action_of_string : String → Option RemediationAction
action_of_string s =
    if str_eq s "alert_only"
    then some RemediationAction.alert_only
    else if str_eq s "throttle"
    then some RemediationAction.throttle
    else if str_eq s "freeze_scaling"
    then some RemediationAction.freeze_scaling
    else if str_eq s "quarantine"
    then some RemediationAction.quarantine
    else if str_eq s "terminate"
    then some RemediationAction.terminate
    else none

pub action_of_string-action_value :
    (a : RemediationAction) → action_of_string (action_value a) ≡ some a
unfolding action_of_string
action_of_string-action_value RemediationAction.alert_only = refl
action_of_string-action_value _ = refl
