-- ===== src/Behaviour/Handler/Runs/Untouched.antt =====
-- The messages of a run that do not concern a service.
use hypertrace.Prelude.{
  ◌+◌, String, ◌≡◌, refl, ap, ◌∙◌, false, ◌&&◌, count_if, count_if-append, str_eq, arith,
  if◌then◌else◌,
}
use hypertrace.Float.{Float}
use hypertrace.Effects.{◌>>=◌, Result}
use hypertrace.Schemas.{TrafficSample}
use hypertrace.Behaviour.Baselines.{
  load_profile, save_profile, score_and_learn, metric_cost, handle_traffic,
}
use hypertrace.Behaviour.Baselines.Stored.{load_profile-upsert_elsewhere, load_profile-upsert_other}
use hypertrace.Behaviour.Handler.{
  CostMessage, Reading, Field, absent, null, given, cpu_value, handle_cpu, handle_cost,
}
use hypertrace.Behaviour.Handler.Flagging.{State, assessed, before_flag}
use hypertrace.Behaviour.Handler.Outcome.{
  Settled, passed, flagged, unsent, Handled, rejected, assessed_as, handle_cost-Handled,
  flag_if-baselines,
}
use hypertrace.Behaviour.Handler.Dwell.{stored}
use hypertrace.Behaviour.Handler.Runs.{is_of, flags_of, stored_for, IsUntouched}

module _ {N : Type 0} ⦃f : Float N⦄ where
  pub handle_traffic-IsUntouched :
      (service : String) (m : TrafficSample N) (w : State N)
      → IsUntouched service w (handle_traffic m w).1
  unfolding handle_traffic score_and_learn save_profile
  handle_traffic-IsUntouched service m w = record {
    profile = load_profile-upsert_other service metric_cost _ w.own.baselines refl;
    flags = refl;
  }

  handle_cpu-profile :
      (service : String) (m : CostMessage N) (cpu : N) (w : State N)
      → str_eq m.service service ≡ false
      → stored_for service (handle_cpu m cpu w).1 ≡ stored_for service w
  unfolding handle_cpu score_and_learn save_profile
  handle_cpu-profile service m cpu w other =
      ap (load_profile service metric_cost)
        (flag_if-baselines m (assessed m cpu w) (before_flag m cpu w))
      ∙ load_profile-upsert_elsewhere service metric_cost _ _ other
      ∙ load_profile-upsert_elsewhere service metric_cost _ w.own.baselines other

  field-profile :
      (service : String) (m : CostMessage N) (c : Field N) (w : State N)
      → str_eq m.service service ≡ false
      → stored_for service ((cpu_value c >>= λ cpu. handle_cpu m cpu) w).1 ≡ stored_for service w
  unfolding cpu_value
  field-profile service m absent w other = handle_cpu-profile service m (f.milli 0) w other
  field-profile service m null w other = refl
  field-profile service m (given cpu) w other = handle_cpu-profile service m cpu w other

  -- A reading adds an anomaly of its service when it is flagged, and none of another.
  pub settled-flags_of :
      (service : String) (m : CostMessage N) (r : Reading N) (w : State N)
      (p : Result (Unit {0}) × State N)
      → Settled m r w p
      → flags_of service p.1
        ≡ flags_of service w + (if str_eq m.service service && r.should_flag then 1 else 0)
  unfolding count_if
  settled-flags_of service m r w _ (passed w' h rows same) =
      ap (count_if (is_of service)) rows ∙ ground arith
  settled-flags_of service m r w _ (flagged w' at h rows out) =
      ap (count_if (is_of service)) rows
      ∙ count_if-append (is_of service) w.own.anomalies _
      ∙ ground arith
  settled-flags_of service m r w _ (unsent w' at h rows same) =
      ap (count_if (is_of service)) rows
      ∙ count_if-append (is_of service) w.own.anomalies _
      ∙ ground arith

  Handled-flags_elsewhere :
      (service : String) (m : CostMessage N) (w : State N) (p : Result (Unit {0}) × State N)
      → str_eq m.service service ≡ false
      → Handled m w p
      → flags_of service p.1 ≡ flags_of service w
  Handled-flags_elsewhere service m w _ other (rejected e) = refl
  Handled-flags_elsewhere service m w _ other (assessed_as cpu p v stored s) =
      settled-flags_of service m _ w p s ∙ ground arith

  pub handle_cost-IsUntouched :
      (service : String) (m : CostMessage N) (w : State N)
      → str_eq m.service service ≡ false
      → IsUntouched service w (handle_cost m w).1
  unfolding handle_cost
  handle_cost-IsUntouched service m w other = record {
    profile = field-profile service m m.cpu_cores w other;
    flags = Handled-flags_elsewhere service m w _ other (handle_cost-Handled m w);
  }
