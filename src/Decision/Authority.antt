-- ===== src/Decision/Authority.antt =====
-- services/decision-policy/app/authority.py, which repeats the end of
-- services/behaviour-analysis/app/confidence.py: how much authority a confidence score earns.
use hypertrace.Prelude.{ℕ, ◌≤◌, arith, if◌then◌else◌}
use hypertrace.Float.{Float}
use hypertrace.Float.Laws.{IsOrdered, ◌≼◌}

pub data Authority : Type 0 where
  autonomous approval alert_only : Authority

module _ {N : Type 0} ⦃f : Float N⦄ where
  abbrev pub autonomous_threshold : N
  autonomous_threshold = f.milli 850

  abbrev pub approval_threshold : N
  approval_threshold = f.milli 600

  unfoldable pub authority_for : N → Authority
  authority_for score =
      if f.le autonomous_threshold score
      then autonomous
      else if f.le approval_threshold score
      then approval
      else alert_only

-- The order of authority: an alert is the least.
abbrev pub rank : Authority → ℕ
rank alert_only = 0
rank approval = 1
rank autonomous = 2

module _ {N : Type 0} ⦃f : Float N⦄ (o : IsOrdered N) where
  -- A higher confidence never earns less authority.
  pub authority_for_mono : (a b : N) → a ≼ b → rank (authority_for a) ≤ rank (authority_for b)
  unfolding authority_for
  authority_for_mono a b h = ground (
    arith,
    o.le_trans autonomous_threshold a b,
    o.le_trans approval_threshold a b,
    o.le_trans approval_threshold autonomous_threshold b,
    o.milli_mono 600 850,
  )
