-- ===== src/Behaviour/Handler/Runs.antt =====
-- The detector over a run of messages: cost and traffic, of any services, in any order.
pub mod Untouched
pub mod Counted
use hypertrace.Prelude.{
  ℕ, ◌+◌, String, ◌≡◌, refl, sym, ap, ◌∙◌, Bool, true, false, ◌&&◌, Option, none, some, get_or,
  List, [], ◌∷◌, ◌++◌, map, Dict, lookup, count_if, count_if-append, str_eq, eq_iff, leb, arith,
  if◌then◌else◌, Bool-cases, inl, inr,
}
use mathlib.Core.Path.{subst, ap₂}
use hypertrace.Float.{Float}
use hypertrace.Effects.{World, ◌>>=◌, Result, ok, err}
use hypertrace.Schemas.{Anomaly, TrafficSample}
use hypertrace.Tables.{AnomalyRow}
use hypertrace.Behaviour.Stats.{Cell}
use hypertrace.Behaviour.Detection.{bucket_key, dwell_samples}
use hypertrace.Behaviour.Baselines.{
  Engine, BaselineRow, load_profile, save_profile, score_and_learn, metric_cost, metric_cpu,
  metric_traffic, handle_traffic,
}
use hypertrace.Behaviour.Baselines.Stored.{load_profile-upsert_elsewhere, load_profile-upsert_other}
use hypertrace.Behaviour.Handler.{
  CostMessage, Reading, Field, absent, null, given, cpu_value, handle_cpu, handle_cost, flag_if,
  flag_anomaly,
}
use hypertrace.Behaviour.Handler.Flagging.{State, assessed, before_flag}
use hypertrace.Behaviour.Handler.Outcome.{
  reading_of, score_of, Settled, passed, flagged, unsent, Handled, rejected, assessed_as,
  handle_cost-Handled, inserted, flag_if-baselines,
}
use hypertrace.Behaviour.Handler.Dwell.{
  Sample, three_in_a_row, stored, Agrees, assessed-Agrees, assess-flag,
}

pub data Event (N : Type 0) : Type 0 where
  costs : CostMessage N → Event N
  rates : TrafficSample N → Event N

-- How many of the verdicts are true.
abbrev pub total : List Bool → ℕ
total flags = count_if (λ b. b) flags

module _ {N : Type 0} ⦃f : Float N⦄ where
  -- What the engine does with a message of either queue.
  unfoldable pub step : Event N → State N → State N
  step (costs m) w = (handle_cost m w).1
  step (rates m) w = (handle_traffic m w).1

  unfoldable pub run : List (Event N) → State N → State N
  run [] w = w
  run (e ∷ es) w = run es (step e w)

  -- The reading that a cost message is assessed as, if its CPU can be read.
  unfoldable pub reading_at : CostMessage N → Field N → State N → Option (Reading N)
  reading_at m absent w = some (reading_of m w (score_of m (f.milli 0) w))
  reading_at m null w = none
  reading_at m (given cpu) w = some (reading_of m w (score_of m cpu w))

  abbrev pub noted : Option (Reading N) → List Bool → List Bool
  noted none rest = rest
  noted (some r) rest = r.verdict.qualifies ∷ rest

  -- Whether each reading of the service qualifies, in the order of the messages.
  unfoldable pub verdicts : String → List (Event N) → State N → List Bool
  verdicts service [] w = []
  verdicts service (rates m ∷ es) w = verdicts service es (handle_traffic m w).1
  verdicts service (costs m ∷ es) w =
      let rest = verdicts service es (handle_cost m w).1 in
      if str_eq m.service service then noted (reading_at m m.cpu_cores w) rest else rest

  abbrev pub is_of : String → AnomalyRow N → Bool
  is_of service row = str_eq row.service service

  -- The anomalies of a service in the table.
  abbrev pub flags_of : String → State N → ℕ
  flags_of service w = count_if (is_of service) w.own.anomalies

  -- The count of readings in a row that is stored for a service.
  abbrev pub stored_for : String → State N → Dict (Cell N)
  stored_for service w = load_profile service metric_cost w.own.baselines

  -- Messages that leave the cost profile of a service, and its anomalies, as they were.
  pub record IsUntouched (service : String) (w w' : State N) : Type 0 where
    pub profile : stored_for service w' ≡ stored_for service w
    pub flags : flags_of service w' ≡ flags_of service w
