-- ===== src/Examples/Learning.antt =====
-- The baselines of traffic, after samples of two workloads.
use hypertrace.Prelude.{ℕ, ◌≡◌, refl, ◌+◌, [], ◌∷◌, List, show}
use hypertrace.Schemas.{TrafficSample}
use hypertrace.Behaviour.Detection.{bucket_key, weekday, hour}
use hypertrace.Behaviour.Baselines.Traffic.{
  State, handle_all, bucket_stats, learned, handle_all-learned,
}
use hypertrace.Float.Decimal.{decimal}
use hypertrace.Examples.{world}

abbrev sampled : ℕ → TrafficSample ℕ
sampled rate = record { timestamp = 0; service = "shop/cart"; requests_per_second = rate }

-- Three samples of the workload, and one of another in between.
abbrev samples : List (TrafficSample ℕ)
samples = sampled 100 ∷ record (sampled 7) { service = "shop/pay" } ∷ sampled 200 ∷ sampled 300 ∷ []

abbrev before : State ℕ
before = world (record { baselines = []; anomalies = []; traffic_z = [] })

handle_all-learned_example :
    (bucket_stats "shop/cart" "3-0" (handle_all samples before)
      ≡ learned (bucket_stats "shop/cart" "3-0" before) (100 ∷ 200 ∷ 300 ∷ []))
    × ((bucket_stats "shop/cart" "3-0" (handle_all samples before)).n
        ≡ (bucket_stats "shop/cart" "3-0" before).n + 3)
unfolding bucket_key weekday hour show
handle_all-learned_example = handle_all-learned samples "shop/cart" "3-0" before refl
