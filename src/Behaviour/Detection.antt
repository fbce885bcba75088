-- ===== src/Behaviour/Detection.antt =====
-- services/behaviour-analysis/app/main.py: the detection condition, the suppression of learning and the
-- key of a baseline's bucket.
pub mod Laws
use hypertrace.Prelude.{
  ℕ, ◌+◌, ◌/◌, ◌%◌, Bool, true, false, not, ◌&&◌, ◌||◌, Option, none, some, String, ◌<>◌, leb,
  if◌then◌else◌,
}
use hypertrace.Prelude.Show.{show}
use hypertrace.Float.{Float, max}

abbrev pub dwell_samples : ℕ
dwell_samples = 3

abbrev pub min_samples_for_detection : ℕ
min_samples_for_detection = 5

abbrev pub max_consecutive_suppressed : ℕ
max_consecutive_suppressed = 30

-- What `evaluate_condition` returns.
pub record Verdict : Type 0 where
  pub qualifies : Bool
  pub traffic_explains : Bool

module _ {N : Type 0} ⦃f : Float N⦄ where
  -- `resource_moved`
  unfoldable pub has_moved : N → N → Bool
  has_moved cost_z cpu_z = f.lt (f.milli 3000) (max cost_z cpu_z) && f.lt (f.milli 3000) cost_z

  unfoldable pub evaluate_condition : N → N → Option N → Bool → Verdict
  evaluate_condition cost_z cpu_z none mature = record {
    qualifies = false;
    traffic_explains = false;
  }
  evaluate_condition cost_z cpu_z (some traffic_z) false = record {
    qualifies = false;
    traffic_explains = false;
  }
  evaluate_condition cost_z cpu_z (some traffic_z) true = record {
    qualifies = has_moved cost_z cpu_z && f.lt traffic_z (f.milli 1000);
    traffic_explains = has_moved cost_z cpu_z && f.le (f.milli 3000) traffic_z;
  }

-- `_should_learn`: whether this reading trains the baseline, and the new count of suppressed readings.
unfoldable pub should_learn : Bool → ℕ → Bool × ℕ
should_learn qualifies consecutive_flags =
    if not qualifies
    then (true, 0)
    else if leb max_consecutive_suppressed consecutive_flags
    then (true, 0)
    else (false, consecutive_flags + 1)

-- `timestamp.weekday()`, with Monday first, of a time in microseconds since 1970, a Thursday.
unfoldable pub weekday : ℕ → ℕ
weekday t = (t / 86400000000 + 3) % 7

-- `timestamp.hour`, in UTC.
unfoldable pub hour : ℕ → ℕ
hour t = t / 3600000000 % 24

unfoldable pub bucket_key : ℕ → String
bucket_key t = show (weekday t) <> "-" <> show (hour t)
