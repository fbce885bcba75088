-- ===== src/Behaviour/Baselines.antt =====
-- services/behaviour-analysis/app/main.py: the baselines in the database, how a reading is scored
-- against its bucket and learned, and the handler of traffic.
pub mod Stored
pub mod Traffic
use hypertrace.Prelude.{
  ℕ, ◌+◌, String, ◌&&◌, some, get_or, List, [], ◌∷◌, Dict, lookup, insert, str_eq, leb,
  if◌then◌else◌,
}
use hypertrace.Float.{Float}
use hypertrace.Effects.{Exec, pure, gets, modify, now, ◌>>=◌, ◌>>◌}
use hypertrace.Schemas.{Anomaly, TrafficSample}
use hypertrace.Tables.{AnomalyRow}
use hypertrace.Behaviour.Stats.{
  BucketStats, Cell, empty_cell, from_dict, to_dict, update, z_score, stddev,
}
use hypertrace.Behaviour.Detection.{bucket_key, min_samples_for_detection}

-- A row of the table `baselines`.
pub record BaselineRow (N : Type 0) : Type 0 where
  pub service : String
  pub metric : String
  pub rolling_mean : N
  pub rolling_stddev : N
  pub profile : Dict (Cell N)
  pub updated_at : ℕ

-- The tables, and `_traffic_z`.
pub record Engine (N : Type 0) : Type 0 where
  pub baselines : List (BaselineRow N)
  pub anomalies : List (AnomalyRow N)
  pub traffic_z : Dict N

abbrev pub Action : Type 0 → Type 0 → Type 0
Action N A = Exec (Anomaly N) (Engine N) A

abbrev pub metric_cost : String
metric_cost = "cost_per_hour"

abbrev pub metric_cpu : String
metric_cpu = "cpu_cores"

abbrev pub metric_traffic : String
metric_traffic = "requests_per_second"

abbrev pub overall_key : String
overall_key = "_overall"

abbrev pub flag_state_key : String
flag_state_key = "_flag_state"

module _ {N : Type 0} where
  -- `_load_profile`
  unfoldable pub load_profile : String → String → List (BaselineRow N) → Dict (Cell N)
  load_profile service metric [] = []
  load_profile service metric (r ∷ rows) =
      if str_eq r.service service && str_eq r.metric metric
      then r.profile
      else load_profile service metric rows

  -- The `INSERT` that updates the row with the same service and metric when there is one.
  unfoldable pub upsert : BaselineRow N → List (BaselineRow N) → List (BaselineRow N)
  upsert row [] = row ∷ []
  upsert row (r ∷ rows) =
      if str_eq r.service row.service && str_eq r.metric row.metric
      then row ∷ rows
      else r ∷ upsert row rows

  -- `profile.get(key, {})`
  unfoldable pub cell_at : String → Dict (Cell N) → Cell N
  cell_at key profile = get_or (lookup key profile) empty_cell

  abbrev pub flag_cell : ℕ → ℕ → Cell N
  flag_cell suppressed consecutive = record empty_cell {
    consecutive = some suppressed;
    consecutive_qualifying = some consecutive;
  }

module _ {N : Type 0} ⦃f : Float N⦄ where
  unfoldable pub save_profile : String → String → Dict (Cell N) → Action N (Unit {0})
  save_profile service metric profile = do
    at ← now
    let overall = from_dict (cell_at overall_key profile)
    modify (λ s. record s {
      baselines =
          upsert
            (record {
              service = service;
              metric = metric;
              rolling_mean = overall.mean;
              rolling_stddev = stddev overall;
              profile = profile;
              updated_at = at;
            })
            s.baselines;
    })

  -- `stats.z_score(value) if stats.n >= MIN_SAMPLES_FOR_DETECTION else 0.0`
  unfoldable pub mature_score : BucketStats N → N → N
  mature_score stats value =
      if leb min_samples_for_detection stats.n then z_score stats value else f.milli 0

  -- The profile with a reading folded into its bucket and into the overall statistics.
  unfoldable pub learn_into : Dict (Cell N) → String → N → Dict (Cell N)
  learn_into profile bucket value =
      insert overall_key (to_dict (update (from_dict (cell_at overall_key profile)) value))
        (insert bucket (to_dict (update (from_dict (cell_at bucket profile)) value)) profile)

  unfoldable pub score_and_learn : String → String → N → String → Action N (N × ℕ)
  score_and_learn service metric value bucket = do
    rows ← gets (λ s. s.baselines)
    let profile = load_profile service metric rows
    let stats = from_dict (cell_at bucket profile)
    save_profile service metric (learn_into profile bucket value)
    pure (mature_score stats value, stats.n + 1)

  unfoldable pub handle_traffic : TrafficSample N → Action N (Unit {0})
  handle_traffic m = do
    scored ← score_and_learn m.service metric_traffic m.requests_per_second (bucket_key m.timestamp)
    modify (λ s. record s { traffic_z = insert m.service scored.0 s.traffic_z })
