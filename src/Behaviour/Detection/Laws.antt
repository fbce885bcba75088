-- ===== src/Behaviour/Detection/Laws.antt =====
-- The detection condition and the suppression of learning.
use hypertrace.Prelude.{
  ℕ, ◌≤◌, ◌≡◌, refl, Bool, true, false, List, [], ◌∷◌, Option, none, some, arith,
}
use hypertrace.Float.{Float, max}
use hypertrace.Float.Laws.{IsOrdered, le-max_left}
use hypertrace.Behaviour.Detection.{
  has_moved, evaluate_condition, should_learn, max_consecutive_suppressed,
}

module _ {N : Type 0} ⦃f : Float N⦄ (o : IsOrdered N) where
  lt-max : (a b c : N) → f.lt c a ≡ true → f.lt c (max a b) ≡ true
  lt-max a b c h = ground (
    arith,
    o.lt-eq-not-le c a,
    o.lt-eq-not-le c (max a b),
    o.le_trans a (max a b) c (le-max_left o a b),
  )

  -- The movement test is the cost threshold alone: the CPU score never changes it.
  pub has_moved-cost_only : (cost_z cpu_z : N) → has_moved cost_z cpu_z ≡ f.lt (f.milli 3000) cost_z
  unfolding has_moved
  has_moved-cost_only cost_z cpu_z = ground (arith, lt-max cost_z cpu_z (f.milli 3000))

  low_not_high : (x : N) → f.lt x (f.milli 1000) ≡ true → f.le (f.milli 3000) x ≡ false
  low_not_high x h = ground (
    arith,
    o.lt-eq-not-le x (f.milli 1000),
    o.le_trans (f.milli 1000) (f.milli 3000) x (o.milli_mono 1000 3000 (omega arith)),
  )

  -- A reading that qualifies is never one that traffic explains.
  pub evaluate_condition-exclusive :
      (cost_z cpu_z : N) (traffic_z : Option N) (mature : Bool)
      → (evaluate_condition cost_z cpu_z traffic_z mature).qualifies ≡ true
      → (evaluate_condition cost_z cpu_z traffic_z mature).traffic_explains ≡ false
  unfolding evaluate_condition
  evaluate_condition-exclusive cost_z cpu_z none mature h = refl
  evaluate_condition-exclusive cost_z cpu_z (some traffic_z) false h = refl
  evaluate_condition-exclusive cost_z cpu_z (some traffic_z) true h =
      ground (arith, low_not_high traffic_z)

-- Whether each reading of a sequence trains the baseline, from a count of suppressed readings.
unfoldable pub learned : List Bool → ℕ → List Bool
learned [] count = []
learned (qualifies ∷ later) count =
    let (learn, next) = should_learn qualifies count in learn ∷ learned later next

abbrev is_set : Bool → Bool
is_set b = b

-- The count of suppressed readings never passes 30.
pub should_learn-bounded :
    (qualifies : Bool) (count : ℕ)
    → count ≤ max_consecutive_suppressed
    → (should_learn qualifies count).1 ≤ max_consecutive_suppressed
unfolding should_learn
should_learn-bounded qualifies count low = ground arith
