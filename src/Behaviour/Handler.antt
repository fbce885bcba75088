-- ===== src/Behaviour/Handler.antt =====
-- services/behaviour-analysis/app/main.py: the handler of cost.
pub mod Dwell
pub mod Flagging
pub mod Learning
pub mod Outcome
pub mod Runs
use hypertrace.Prelude.{
  ℕ, ◌+◌, String, Bool, true, false, ◌&&◌, Option, none, some, get_or, List, [], ◌∷◌, ◌++◌, Dict,
  lookup, insert, str_eq, leb, if◌then◌else◌,
}
use hypertrace.Float.{Float}
use hypertrace.Messaging.{routing_key_anomaly}
use hypertrace.Effects.{
  Exec, pure, raise, gets, modify, now, uuid4, publish, type_error, ◌>>=◌, ◌>>◌,
}
use hypertrace.Schemas.{
  Anomaly, Evidence, ScoreEvidence, ResourceRef, TrafficSample, AnomalyClassification,
  classification_value,
}
use hypertrace.Tables.{AnomalyRow}
use hypertrace.Behaviour.Stats.{
  BucketStats, Cell, empty_cell, from_dict, to_dict, update, z_score, stddev,
}
use hypertrace.Behaviour.Confidence.{Scores, peak, confidence, corroboration_none, maturity_samples}
use hypertrace.Behaviour.Detection.{
  evaluate_condition, Verdict, should_learn, bucket_key, dwell_samples, min_samples_for_detection,
}
use hypertrace.Behaviour.Baselines.{
  BaselineRow, Engine, Action, metric_cost, metric_cpu, metric_traffic, overall_key, flag_state_key,
  load_profile, upsert, cell_at, flag_cell, save_profile, mature_score, learn_into, score_and_learn,
}

-- A member of a JSON object that may be missing or null.
pub data Field (N : Type 0) : Type 0 where
  absent null : Field N
  given : N → Field N

-- What the handler reads of a message on `cost.event`.
pub record CostMessage (N : Type 0) : Type 0 where
  pub service : String
  pub cost_per_hour : N
  pub timestamp : ℕ
  pub cpu_cores : Field N
  pub resource : ResourceRef

-- The classification that the detector itself can decide.
unfoldable pub detected_class : Verdict → AnomalyClassification
detected_class v =
    if v.traffic_explains
    then AnomalyClassification.legitimate_traffic_growth
    else AnomalyClassification.unclassified

-- What `_handle_cost` works out of the loaded profile before it writes anything.
pub record Reading (N : Type 0) : Type 0 where
  pub scores : Scores N
  pub cost_delta : N
  pub verdict : Verdict
  pub consecutive : ℕ
  pub should_flag : Bool
  pub suppressed : ℕ
  -- The profile to save, and the bucket's count of readings after learning.
  pub profile : Dict (Cell N)
  pub samples : ℕ

module _ {N : Type 0} ⦃f : Float N⦄ where
  unfoldable pub assess : Dict (Cell N) → String → N → N → Option N → Reading N
  assess profile bucket value cpu_z traffic_z =
      let stats = from_dict (cell_at bucket profile) in
      let flag_state = cell_at flag_state_key profile in
      let mature = leb min_samples_for_detection stats.n in
      let cost_z = mature_score stats value in
      let verdict = evaluate_condition cost_z cpu_z traffic_z mature in
      let consecutive =
        if verdict.qualifies then get_or flag_state.consecutive_qualifying 0 + 1 else 0 in
      let learning = should_learn verdict.qualifies (get_or flag_state.consecutive 0) in
      let learned = if learning.0 then learn_into profile bucket value else profile in
      record {
        scores = record {
          cost_z = cost_z;
          cpu_z = cpu_z;
          traffic_z = get_or traffic_z (f.milli 0);
        };
        cost_delta = if mature then f.sub value stats.mean else f.milli 0;
        verdict = verdict;
        consecutive = consecutive;
        should_flag = verdict.qualifies && leb dwell_samples consecutive;
        suppressed = learning.1;
        profile = insert flag_state_key (flag_cell learning.1 consecutive) learned;
        samples = if learning.0 then stats.n + 1 else stats.n;
      }

  abbrev pub anomaly_of :
      CostMessage N → Reading N → String → ℕ → N → AnomalyClassification → Anomaly N
  anomaly_of m r id at score_confidence classification = record {
    id = id;
    service = m.service;
    score = peak r.scores;
    classification = some (classification_value classification);
    evidence = record {
      metric = some metric_cost;
      value = some m.cost_per_hour;
      bucket = some (bucket_key m.timestamp);
      resource = some m.resource;
      scores = some (record {
        cost_z = r.scores.cost_z;
        cpu_z = r.scores.cpu_z;
        traffic_z = r.scores.traffic_z;
      });
      confidence = some score_confidence;
      baseline_mature = some (leb maturity_samples r.samples);
      cost_delta_usd_hr = some r.cost_delta;
      classification_reason = none;
    };
    status = "open";
    created_at = at;
    confidence = some score_confidence;
  }

  -- The row that `_flag_anomaly` inserts.
  abbrev pub anomaly_row :
      CostMessage N → Reading N → String → ℕ → N → AnomalyClassification → AnomalyRow N
  anomaly_row m r id at score_confidence classification = record {
    id = id;
    service = m.service;
    score = peak r.scores;
    classification = classification_value classification;
    evidence = (anomaly_of m r id at score_confidence classification).evidence;
    status = "open";
    created_at = at;
    confidence = some score_confidence;
    baseline_mature = leb maturity_samples r.samples;
    cost_delta_usd_hr = some r.cost_delta;
  }

  unfoldable pub flag_anomaly :
      CostMessage N → Reading N → N → AnomalyClassification → Action N (Unit {0})
  flag_anomaly m r score_confidence classification = do
    at ← now
    id ← uuid4
    modify (λ s. record s {
      anomalies = s.anomalies ++ anomaly_row m r id at score_confidence classification ∷ [];
    })
    publish routing_key_anomaly (anomaly_of m r id at score_confidence classification)

  unfoldable pub flag_if : CostMessage N → Reading N → Action N (Unit {0})
  flag_if m r =
      if r.should_flag
      then flag_anomaly m r (confidence r.scores corroboration_none r.samples)
          (detected_class r.verdict)
      else pure tt

  -- `message.get("cpu_cores", 0.0)`; arithmetic on a null raises.
  unfoldable pub cpu_value : Field N → Action N N
  cpu_value absent = pure (f.milli 0)
  cpu_value null = raise type_error
  cpu_value (given x) = pure x

  -- `_handle_cost` from the scoring of CPU on.
  unfoldable pub handle_cpu : CostMessage N → N → Action N (Unit {0})
  handle_cpu m cpu = do
    scored ← score_and_learn m.service metric_cpu cpu (bucket_key m.timestamp)
    s ← gets (λ s. s)
    let r =
        assess (load_profile m.service metric_cost s.baselines) (bucket_key m.timestamp)
          m.cost_per_hour scored.0 (lookup m.service s.traffic_z)
    save_profile m.service metric_cost r.profile
    flag_if m r

  unfoldable pub handle_cost : CostMessage N → Action N (Unit {0})
  handle_cost m = cpu_value m.cpu_cores >>= λ cpu. handle_cpu m cpu
