-- ===== src/Behaviour/Confidence/Bounds.antt =====
-- How far confidence can go, and what it earns.
use hypertrace.Prelude.{ℕ, ◌+◌, ◌≤◌, ◌<◌, ◌≡◌, ◌≢◌, arith}
use mathlib.Core.Path.{subst}
use hypertrace.Float.{Float, max, min}
use hypertrace.Float.Laws.{
  IsOrdered, ◌≼◌, le-max_left, max-le, min-le_left, min-le_right, le-min, le-max_right, sub-le-zero,
}
use hypertrace.Decision.Authority.{autonomous, alert_only, authority_for}
use hypertrace.Behaviour.Confidence.{
  Scores, clamp, peak, magnitude, decoupling, maturity, confidence, corroboration_none,
}

module _ {N : Type 0} ⦃f : Float N⦄ (o : IsOrdered N) where
  clamp-le-one : (x : N) → clamp x ≼ f.milli 1000
  unfolding clamp
  clamp-le-one x =
      max-le o (f.milli 0) (min (f.milli 1000) x) (f.milli 1000) (o.milli_mono 0 1000 (omega arith))
        (min-le_left o (f.milli 1000) x)

  zero-le-clamp : (x : N) → f.milli 0 ≼ clamp x
  unfolding clamp
  zero-le-clamp x = le-max_left o (f.milli 0) (min (f.milli 1000) x)

  -- What is not positive is clamped to zero.
  clamp-le-zero : (x : N) → x ≼ f.milli 0 → clamp x ≼ f.milli 0
  unfolding clamp
  clamp-le-zero x h =
      max-le o (f.milli 0) (min (f.milli 1000) x) (f.milli 0) (o.le_refl (f.milli 0))
        (o.le_trans (min (f.milli 1000) x) x (f.milli 0) (min-le_right o (f.milli 1000) x) h)

  pub clamp_mono : (x y : N) → x ≼ y → clamp x ≼ clamp y
  unfolding clamp
  clamp_mono x y h =
      max-le o (f.milli 0) (min (f.milli 1000) x) (max (f.milli 0) (min (f.milli 1000) y))
        (le-max_left o (f.milli 0) (min (f.milli 1000) y))
        (o.le_trans (min (f.milli 1000) x) (min (f.milli 1000) y)
          (max (f.milli 0) (min (f.milli 1000) y))
          (le-min o (f.milli 1000) y (min (f.milli 1000) x) (min-le_left o (f.milli 1000) x)
            (o.le_trans (min (f.milli 1000) x) x y (min-le_right o (f.milli 1000) x) h))
          (le-max_right o (f.milli 0) (min (f.milli 1000) y)))

  weighted-le : (k : ℕ) (x : N) → x ≼ f.milli 1000 → f.mul (f.milli k) x ≼ f.milli k
  weighted-le k x h =
      subst (λ y. f.mul (f.milli k) x ≼ y) (o.mul-one k) (o.mul_mono k x (f.milli 1000) h)

  weighted-le-zero : (k : ℕ) (x : N) → x ≼ f.milli 0 → f.mul (f.milli k) x ≼ f.milli 0
  weighted-le-zero k x h =
      subst (λ y. f.mul (f.milli k) x ≼ y) (o.mul-zero k) (o.mul_mono k x (f.milli 0) h)

  zero-le-weighted : (k : ℕ) (x : N) → f.milli 0 ≼ x → f.milli 0 ≼ f.mul (f.milli k) x
  zero-le-weighted k x h =
      subst (λ y. y ≼ f.mul (f.milli k) x) (o.mul-zero k) (o.mul_mono k (f.milli 0) x h)

  div-le-zero : (k : ℕ) (x : N) → 0 < k → x ≼ f.milli 0 → f.div x (f.milli k) ≼ f.milli 0
  div-le-zero k x positive h =
      subst (λ y. f.div x (f.milli k) ≼ y) (o.zero-div k positive)
        (o.div_mono k x (f.milli 0) positive h)

  -- A weighted sum is at most the sum of decimals that bound its terms.
  sum-le :
      (a b c d : ℕ) (x y z w : N)
      → a + b + c + d ≤ 1000
      → x ≼ f.milli a
      → y ≼ f.milli b
      → z ≼ f.milli c
      → w ≼ f.milli d
      → f.round3 (f.add (f.add (f.add x y) z) w) ≼ f.milli (a + b + c + d)
  sum-le a b c d x y z w fits hx hy hz hw =
      subst (λ t. f.round3 (f.add (f.add (f.add x y) z) w) ≼ t) (o.round3_sum a b c d fits)
        (o.round3_mono _ _
          (o.add_mono _ _ _ _ (o.add_mono _ _ _ _ (o.add_mono _ _ _ _ hx hy) hz) hw))

  -- A sum of terms that are not negative is not negative.
  zero-le-sum :
      (x y z w : N)
      → f.milli 0 ≼ x
      → f.milli 0 ≼ y
      → f.milli 0 ≼ z
      → f.milli 0 ≼ w
      → f.milli 0 ≼ f.round3 (f.add (f.add (f.add x y) z) w)
  zero-le-sum x y z w hx hy hz hw =
      subst (λ t. t ≼ f.round3 (f.add (f.add (f.add x y) z) w)) (o.round3_sum 0 0 0 0 (omega arith))
        (o.round3_mono _ _
          (o.add_mono _ _ _ _ (o.add_mono _ _ _ _ (o.add_mono _ _ _ _ hx hy) hz) hw))

  -- Confidence lies between zero and one.
  confidence_range :
      (s : Scores N) (corroboration : N) (n : ℕ)
      → (f.milli 0 ≼ confidence s corroboration n) × (confidence s corroboration n ≼ f.milli 1000)
  unfolding confidence magnitude decoupling maturity
  confidence_range s corroboration n = (
    zero-le-sum _ _ _ _ (zero-le-weighted 400 _ (zero-le-clamp _))
        (zero-le-weighted 300 _ (zero-le-clamp _)) (zero-le-weighted 200 _ (zero-le-clamp _))
        (zero-le-weighted 100 _ (zero-le-clamp _)),
    sum-le 400 300 200 100 _ _ _ _ (omega arith) (weighted-le 400 _ (clamp-le-one _))
        (weighted-le 300 _ (clamp-le-one _)) (weighted-le 200 _ (clamp-le-one _))
        (weighted-le 100 _ (clamp-le-one _)),
  )

  -- Without corroboration confidence is at most 0.8, whatever the scores and the maturity.
  pub confidence_uncorroborated :
      (s : Scores N) (n : ℕ) → confidence s corroboration_none n ≼ f.milli 800
  unfolding confidence magnitude decoupling maturity
  confidence_uncorroborated s n =
      sum-le 400 300 0 100 _ _ _ _ (omega arith) (weighted-le 400 _ (clamp-le-one _))
        (weighted-le 300 _ (clamp-le-one _))
        (weighted-le-zero 200 _ (clamp-le-zero _ (o.le_refl (f.milli 0))))
        (weighted-le 100 _ (clamp-le-one _))

  -- The same sum with the decoupling at zero: traffic at or above the peak leaves at most one half.
  pub confidence_coupled :
      (s : Scores N) (n : ℕ)
      → peak s ≼ s.traffic_z
      → confidence s corroboration_none n ≼ f.milli 500
  unfolding confidence magnitude decoupling maturity
  confidence_coupled s n h =
      sum-le 400 0 0 100 _ _ _ _ (omega arith) (weighted-le 400 _ (clamp-le-one _))
        (weighted-le-zero 300 _ (
          clamp-le-zero _
            (div-le-zero 6000 _ (omega arith) (sub-le-zero o (peak s) s.traffic_z h))))
        (weighted-le-zero 200 _ (clamp-le-zero _ (o.le_refl (f.milli 0))))
        (weighted-le 100 _ (clamp-le-one _))

  pub authority_800 : (x : N) → x ≼ f.milli 800 → authority_for x ≢ autonomous
  unfolding authority_for
  authority_800 x h =
      ground (arith, o.le_trans (f.milli 850) x (f.milli 800), o.milli_strict 800 850)

  authority_500 : (x : N) → x ≼ f.milli 500 → authority_for x ≡ alert_only
  unfolding authority_for
  authority_500 x h = ground (
    arith,
    o.le_trans (f.milli 850) x (f.milli 500),
    o.milli_strict 500 850,
    o.le_trans (f.milli 600) x (f.milli 500),
    o.milli_strict 500 600,
  )

  -- With no corroboration, no scores and no maturity ever earn autonomous authority.
  confidence-never_autonomous :
      (s : Scores N) (n : ℕ) → authority_for (confidence s corroboration_none n) ≢ autonomous
  confidence-never_autonomous s n = authority_800 _ (confidence_uncorroborated s n)

  -- With no corroboration, and with traffic at or above the peak of cost and CPU, the confidence earns
  -- an alert only.
  confidence-alert_only :
      (s : Scores N) (n : ℕ)
      → peak s ≼ s.traffic_z
      → authority_for (confidence s corroboration_none n) ≡ alert_only
  confidence-alert_only s n h = authority_500 _ (confidence_coupled s n h)
