-- ===== src/Decision/Correlation/Causes.antt =====
-- Which cause the joint classification names, by what was seen of the service.
use hypertrace.Prelude.{
  ℕ, ◌+◌, ◌≤◌, String, ◌≡◌, refl, ◌⊎◌, inl, inr, true, false, Option, none, some, Option-cases,
  Bool-cases, if◌then◌else◌, lookup, leb, ltb, arith,
}
use mathlib.Core.Path.{subst}
use hypertrace.Effects.{World, Result, ok, minutes}
use hypertrace.Schemas.{AnomalyClassification, Reason, RemediationRequest}
use hypertrace.Decision.Correlation.{
  Engine, recent_deployment_window_minutes, security_signal_window_minutes, recent_deployment,
  recent_security_signal, traffic_verdict, classify,
}

abbrev pub State : Type 0 → Type 0
State N = World RemediationRequest (Engine N)

-- The answer when no signal is fresh, by the event on file.
by_event : ℕ → Option ℕ → Result (AnomalyClassification × Reason)
by_event now none = ok (AnomalyClassification.misconfiguration_or_waste, Reason.no_reason)
by_event now (some at) =
    if leb now (at + minutes recent_deployment_window_minutes)
    then ok (AnomalyClassification.likely_bug_from_deployment, Reason.recent_deployment)
    else ok (AnomalyClassification.misconfiguration_or_waste, Reason.no_reason)

module _ {N : Type 0} where
  -- No security signal of the last ten minutes.
  abbrev pub NoSignal : String → State N → Type 0
  NoSignal service w =
      (lookup service w.own.recent_security ≡ none)
      ⊎ ((seen : ℕ × String) × (lookup service w.own.recent_security ≡ some seen)
          × (ltb (seen.0 + minutes security_signal_window_minutes) (w.clock w.reads) ≡ true))

  -- A deployment in the last fifteen minutes, or none, at the n-th reading of the clock.
  abbrev pub Deployed : String → State N → ℕ → Type 0
  Deployed service w n =
      (at : ℕ) × (lookup service w.own.recent_events ≡ some at)
      × (leb (w.clock n) (at + minutes recent_deployment_window_minutes) ≡ true)

  abbrev pub NotDeployed : String → State N → ℕ → Type 0
  NotDeployed service w n =
      (lookup service w.own.recent_events ≡ none)
      ⊎ ((at : ℕ) × (lookup service w.own.recent_events ≡ some at)
          × (leb (w.clock n) (at + minutes recent_deployment_window_minutes) ≡ false))

  pub data Cause (service : String) (verdict : Option String) (w : State N)
      : Result (AnomalyClassification × Reason) → Type 0 where
    explained :
        traffic_verdict verdict ≡ true
        → Cause service verdict w
            (ok (AnomalyClassification.legitimate_traffic_growth, Reason.traffic_explains))
    abused :
        (seen : ℕ × String)
        → traffic_verdict verdict ≡ false
        → lookup service w.own.recent_security ≡ some seen
        → ltb (seen.0 + minutes security_signal_window_minutes) (w.clock w.reads) ≡ false
        → Cause service verdict w
            (ok (AnomalyClassification.suspected_abuse, Reason.security_rule seen.1))
    deployed :
        (n : ℕ)
        → traffic_verdict verdict ≡ false
        → NoSignal service w
        → w.reads ≤ n
        → Deployed service w n
        → Cause service verdict w
            (ok (AnomalyClassification.likely_bug_from_deployment, Reason.recent_deployment))
    wasted :
        (n : ℕ)
        → traffic_verdict verdict ≡ false
        → NoSignal service w
        → w.reads ≤ n
        → NotDeployed service w n
        → Cause service verdict w
            (ok (AnomalyClassification.misconfiguration_or_waste, Reason.no_reason))

  by_event-Cause :
      (service : String) (verdict : Option String) (w : State N) (n : ℕ) (found : Option ℕ)
      → lookup service w.own.recent_events ≡ found
      → traffic_verdict verdict ≡ false
      → NoSignal service w
      → w.reads ≤ n
      → Cause service verdict w (by_event (w.clock n) found)
  unfolding by_event
  by_event-Cause service verdict w n none e q s le = wasted n q s le (inl e)
  by_event-Cause service verdict w n (some at) e q s le =
      elim (Bool-cases (leb (w.clock n) (at + minutes recent_deployment_window_minutes))) [
        | inl d ↦ rw d (deployed n q s le (at, e, d))
        | inr d ↦ rw d (wasted n q s le (inr (at, e, d)))
      ]

  -- The classification never fails, and names growth just when the detector did, else abuse under the
  -- rule of a security signal of the last ten minutes, else a deployment of the last fifteen, else
  -- waste; so a signal outranks a deployment.
  pub classify-Cause :
      (service : String) (verdict : Option String) (w : State N)
      → Cause service verdict w (classify service verdict w).0
  unfolding classify recent_security_signal recent_deployment by_event
  classify-Cause service verdict w =
      let answer = classify service verdict w in
      elim (Bool-cases (traffic_verdict verdict)) [
        | inl q ↦
            let ends : ok (AnomalyClassification.legitimate_traffic_growth, Reason.traffic_explains)
                ≡ answer.0 =
              ground arith in
            subst (Cause service verdict w) ends (explained q)
        | inr q ↦ elim (Option-cases (lookup service w.own.recent_security)) [
          | inl s ↦
              let ends : by_event (w.clock w.reads) (lookup service w.own.recent_events)
                  ≡ answer.0 =
                ground arith in
              subst (Cause service verdict w) ends (
                by_event-Cause service verdict w w.reads (lookup service w.own.recent_events) refl q
                  (inl s) (omega arith))
          | inr (seen, s) ↦
              elim (Bool-cases
                (ltb (seen.0 + minutes security_signal_window_minutes) (w.clock w.reads))) [
                  | inl old ↦
                      let ends : by_event (w.clock (w.reads + 1))
                            (lookup service w.own.recent_events)
                          ≡ answer.0 =
                        ground arith in
                      subst (Cause service verdict w) ends (
                        by_event-Cause service verdict w (w.reads + 1)
                          (lookup service w.own.recent_events) refl q (inr (seen, s, old))
                          (omega arith))
                  | inr fresh ↦
                      let ends : ok
                            (AnomalyClassification.suspected_abuse, Reason.security_rule seen.1)
                          ≡ answer.0 =
                        ground arith in
                      subst (Cause service verdict w) ends (abused seen q s fresh)
                ]
        ]
      ]
