-- ===== src/Behaviour/Stats.antt =====
-- services/behaviour-analysis/app/stats.py: the running mean and variance of one bucket, and the JSON
-- object that it is stored as.
pub mod Welford
use hypertrace.Prelude.{ℕ, ◌+◌, ◌-◌, ◌≡◌, refl, Option, none, some, get_or, ltb, if◌then◌else◌}
use hypertrace.Float.{Float}

pub record BucketStats (N : Type 0) : Type 0 where
  pub n : ℕ
  pub mean : N
  pub m2 : N

-- A JSON object of the stored profile, with the keys that the engine reads: a bucket's statistics,
-- or the flag state.
pub record Cell (N : Type 0) : Type 0 where
  pub n : Option ℕ
  pub mean : Option N
  pub m2 : Option N
  pub consecutive : Option ℕ
  pub consecutive_qualifying : Option ℕ

module _ {N : Type 0} where
  abbrev pub empty_cell : Cell N
  empty_cell = record {
    n = none;
    mean = none;
    m2 = none;
    consecutive = none;
    consecutive_qualifying = none;
  }

  unfoldable pub to_dict : BucketStats N → Cell N
  to_dict s = record empty_cell { n = some s.n; mean = some s.mean; m2 = some s.m2 }

module _ {N : Type 0} ⦃f : Float N⦄ where
  unfoldable pub from_dict : Cell N → BucketStats N
  from_dict c = record {
    n = get_or c.n 0;
    mean = get_or c.mean (f.milli 0);
    m2 = get_or c.m2 (f.milli 0);
  }

  -- `BucketStats.update`: Welford's step.
  unfoldable pub update : BucketStats N → N → BucketStats N
  update s value =
      let n = s.n + 1 in
      let delta = f.sub value s.mean in
      let mean = f.add s.mean (f.div delta (f.of_nat n)) in
      let delta2 = f.sub value mean in
      record { n = n; mean = mean; m2 = f.add s.m2 (f.mul delta delta2) }

  unfoldable pub stddev : BucketStats N → N
  stddev s = if ltb s.n 2 then f.milli 0 else f.sqrt (f.div s.m2 (f.of_nat (s.n - 1)))

  unfoldable pub z_score : BucketStats N → N → N
  unfolding stddev
  z_score s value =
      if f.eq (stddev s) (f.milli 0) then f.milli 0 else f.div (f.sub value s.mean) (stddev s)

  -- Statistics survive being stored and loaded.
  pub from_dict-to_dict : (s : BucketStats N) → from_dict (to_dict s) ≡ s
  unfolding from_dict to_dict
  from_dict-to_dict s = refl
