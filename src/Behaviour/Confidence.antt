-- ===== src/Behaviour/Confidence.antt =====
-- services/behaviour-analysis/app/confidence.py: the score that gates authority, and
-- `authority_for`, which the decision engine repeats.
pub mod Bounds
pub mod Monotone
use hypertrace.Prelude.{ℕ, ◌≡◌, refl, if◌then◌else◌}
use hypertrace.Float.{Float, max, min}
use hypertrace.Decision.Authority.{Authority}
use hypertrace.Decision.Authority as Engine

-- `Scores`
pub record Scores (N : Type 0) : Type 0 where
  pub cost_z : N
  pub cpu_z : N
  pub traffic_z : N

abbrev pub maturity_samples : ℕ
maturity_samples = 720

module _ {N : Type 0} ⦃f : Float N⦄ where
  abbrev pub corroboration_none : N
  corroboration_none = f.milli 0

  abbrev pub corroboration_soft : N
  corroboration_soft = f.milli 500

  abbrev pub corroboration_hard : N
  corroboration_hard = f.milli 1000

  -- `_clamp`
  unfoldable pub clamp : N → N
  clamp value = max (f.milli 0) (min (f.milli 1000) value)

  unfoldable pub peak : Scores N → N
  peak s = max s.cost_z s.cpu_z

  unfoldable pub magnitude : Scores N → N
  magnitude s = clamp (f.div (f.sub (peak s) (f.milli 3000)) (f.milli 5000))

  unfoldable pub decoupling : Scores N → N
  decoupling s = clamp (f.div (f.sub (peak s) s.traffic_z) (f.milli 6000))

  unfoldable pub maturity : ℕ → N
  maturity n = clamp (f.div (f.of_nat n) (f.of_nat maturity_samples))

  unfoldable pub confidence : Scores N → N → ℕ → N
  confidence s corroboration n = f.round3 (
      f.add
        (f.add (f.add (f.mul (f.milli 400) (magnitude s)) (f.mul (f.milli 300) (decoupling s)))
          (f.mul (f.milli 200) (clamp corroboration)))
        (f.mul (f.milli 100) (maturity n)))

  abbrev pub autonomous_threshold : N
  autonomous_threshold = f.milli 850

  abbrev pub approval_threshold : N
  approval_threshold = f.milli 600

  unfoldable pub authority_for : N → Authority
  authority_for score =
      if f.le autonomous_threshold score
      then Authority.autonomous
      else if f.le approval_threshold score
      then Authority.approval
      else Authority.alert_only

  -- The copy of the decision engine is the same function.
  authority_for-same : (score : N) → authority_for score ≡ Engine.authority_for score
  unfolding authority_for Engine.authority_for
  authority_for-same score = refl
