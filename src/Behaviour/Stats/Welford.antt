-- ===== src/Behaviour/Stats/Welford.antt =====
-- Welford's step, for the readings of a bucket one after another.
use hypertrace.Prelude.{◌+◌, ◌≡◌, List, [], ◌∷◌, length, arith}
use hypertrace.Float.{Float}
use hypertrace.Behaviour.Stats.{BucketStats, update}

module _ {N : Type 0} ⦃f : Float N⦄ where
  abbrev pub updates : BucketStats N → List N → BucketStats N
  updates s [] = s
  updates s (x ∷ xs) = updates (update s x) xs

  pub updates-length : (xs : List N) (s : BucketStats N) → (updates s xs).n ≡ s.n + length xs
  unfolding update
  updates-length [] s = omega arith
  updates-length (x ∷ xs) s = omega (arith, updates-length xs (update s x))
