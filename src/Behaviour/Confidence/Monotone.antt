-- ===== src/Behaviour/Confidence/Monotone.antt =====
-- Stronger evidence of a fault never earns less.
use hypertrace.Prelude.{ℕ, ◌≤◌, arith}
use hypertrace.Float.{Float, max}
use hypertrace.Float.Laws.{IsOrdered, ◌≼◌, le-max_left, le-max_right, max-le}
use hypertrace.Decision.Authority.{authority_for, authority_for_mono, rank}
use hypertrace.Behaviour.Confidence.{Scores, peak, magnitude, decoupling, maturity, confidence}
use hypertrace.Behaviour.Confidence.Bounds.{clamp_mono}

module _ {N : Type 0} ⦃f : Float N⦄ (o : IsOrdered N) where
  -- Scores that speak more for a fault: cost and CPU no lower, traffic no higher.
  pub record Stronger (s t : Scores N) : Type 0 where
    pub cost : s.cost_z ≼ t.cost_z
    pub cpu : s.cpu_z ≼ t.cpu_z
    pub traffic : t.traffic_z ≼ s.traffic_z

  peak_mono : (s t : Scores N) → Stronger s t → peak s ≼ peak t
  unfolding peak
  peak_mono s t h =
      max-le o s.cost_z s.cpu_z (max t.cost_z t.cpu_z)
        (o.le_trans s.cost_z t.cost_z (max t.cost_z t.cpu_z) h.cost
          (le-max_left o t.cost_z t.cpu_z))
        (o.le_trans s.cpu_z t.cpu_z (max t.cost_z t.cpu_z) h.cpu (le-max_right o t.cost_z t.cpu_z))

  magnitude_mono : (s t : Scores N) → Stronger s t → magnitude s ≼ magnitude t
  unfolding magnitude
  magnitude_mono s t h = clamp_mono o _ _ (
      o.div_mono 5000 _ _ (omega arith) (
        o.sub_mono (peak s) (peak t) (f.milli 3000) (f.milli 3000) (peak_mono s t h)
          (o.le_refl (f.milli 3000))))

  decoupling_mono : (s t : Scores N) → Stronger s t → decoupling s ≼ decoupling t
  unfolding decoupling
  decoupling_mono s t h = clamp_mono o _ _ (
      o.div_mono 6000 _ _ (omega arith)
        (o.sub_mono (peak s) (peak t) t.traffic_z s.traffic_z (peak_mono s t h) h.traffic))

  confidence_mono :
      (s t : Scores N) (c d : N) (n : ℕ)
      → Stronger s t
      → c ≼ d
      → confidence s c n ≼ confidence t d n
  unfolding confidence
  confidence_mono s t c d n h k = o.round3_mono _ _ (
      o.add_mono _ _ _ _
        (o.add_mono _ _ _ _
          (o.add_mono _ _ _ _ (o.mul_mono 400 _ _ (magnitude_mono s t h))
            (o.mul_mono 300 _ _ (decoupling_mono s t h)))
          (o.mul_mono 200 _ _ (clamp_mono o c d k)))
        (o.le_refl (f.mul (f.milli 100) (maturity n))))

  -- With cost and CPU scores no lower, a traffic score no higher and corroboration no weaker, at the
  -- same maturity, the confidence is no lower and earns no less authority.
  pub authority_for-confidence_mono :
      (s t : Scores N) (c d : N) (n : ℕ)
      → Stronger s t
      → c ≼ d
      → (confidence s c n ≼ confidence t d n)
        × (rank (authority_for (confidence s c n)) ≤ rank (authority_for (confidence t d n)))
  authority_for-confidence_mono s t c d n h k =
      let higher = confidence_mono s t c d n h k in
      (higher, authority_for_mono o (confidence s c n) (confidence t d n) higher)
