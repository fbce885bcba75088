-- ===== src/Examples/Detecting.antt =====
-- The detector's theorems at a workload whose cost has left its baseline twice already.
use hypertrace.Prelude.{
  ℕ, ◌+◌, ◌≤◌, arith, ◌≡◌, refl, Bool, true, false, some, List, [], ◌∷◌, Dict, lookup,
}
use hypertrace.Float.{max}
use hypertrace.Float.Decimal.{decimal, decimal-IsOrdered}
use hypertrace.Float.Laws.{◌≼◌}
use hypertrace.Messaging
use hypertrace.Behaviour.Stats.{Cell, empty_cell, from_dict, stddev, z_score}
use hypertrace.Behaviour.Confidence.{Scores, confidence, corroboration_none}
use hypertrace.Decision.Authority.{authority_for, rank}
use hypertrace.Behaviour.Confidence.Monotone.{authority_for-confidence_mono}
use hypertrace.Behaviour.Detection.{evaluate_condition, has_moved}
use hypertrace.Behaviour.Baselines.{
  Engine, load_profile, cell_at, flag_cell, mature_score, metric_cost, flag_state_key,
}
use hypertrace.Behaviour.Handler.{CostMessage, given, null, assess, handle_cost}
use hypertrace.Behaviour.Handler.Flagging.{State}
use hypertrace.Behaviour.Handler.Dwell.{three_in_a_row}
use hypertrace.Behaviour.Handler.Runs.{Event, costs, rates, run, verdicts, flags_of, total}
use hypertrace.Behaviour.Handler.Runs.Counted.{run-dwell}
use hypertrace.Behaviour.Handler.Outcome.{Handled, handle_cost-Handled}
use hypertrace.Behaviour.Handler.Learning.{assess-frozen}
use hypertrace.Examples.{world, pod_ref}

abbrev usual : Cell ℕ
usual = record empty_cell { n = some 6; mean = some 100; m2 = some 500 }

abbrev profile : Dict (Cell ℕ)
profile = ("3-0", usual) ∷ (flag_state_key, flag_cell 2 2) ∷ []

abbrev engine : Engine ℕ
engine = record {
  baselines =
      record {
        service = "shop/cart";
        metric = metric_cost;
        rolling_mean = 100;
        rolling_stddev = 316;
        profile = profile;
        updated_at = 0;
      }
      ∷ [];
  anomalies = [];
  traffic_z = ("shop/cart", 500) ∷ [];
}

abbrev pub before : State ℕ
before = world engine

abbrev pub spike : CostMessage ℕ
spike = record {
  service = "shop/cart";
  cost_per_hour = 2000;
  timestamp = 0;
  cpu_cores = given 700;
  resource = pod_ref;
}

handle_cost-Handled_example : Handled spike before (handle_cost spike before)
handle_cost-Handled_example = handle_cost-Handled spike before

-- A workload with a mature bucket: its cost jumps for three readings, one of another service and a
-- traffic sample come in between, and one reading has no CPU to read.
abbrev calm : State ℕ
calm = world (record engine {
  baselines =
      record {
        service = "shop/cart";
        metric = metric_cost;
        rolling_mean = 100;
        rolling_stddev = 316;
        profile = ("3-0", usual) ∷ [];
        updated_at = 0;
      }
      ∷ [];
})

abbrev events : List (Event ℕ)
events =
    costs spike
    ∷ rates (record { timestamp = 0; service = "shop/pay"; requests_per_second = 9000 })
    ∷ costs (record spike { cpu_cores = null })
    ∷ costs (record spike { service = "shop/pay" })
    ∷ costs spike
    ∷ costs spike
    ∷ []

run-dwell_example :
    flags_of "shop/cart" (run events calm)
    ≡ flags_of "shop/cart" calm
      + total (three_in_a_row false false (verdicts "shop/cart" events calm))
unfolding load_profile cell_at lookup
run-dwell_example = run-dwell events "shop/cart" calm refl

abbrev high : Scores ℕ
high = record { cost_z = 9000; cpu_z = 4000; traffic_z = 0 }

-- Scores between which traffic alone differs.
abbrev busy : Scores ℕ
busy = record { cost_z = 9000; cpu_z = 4000; traffic_z = 12000 }

abbrev five : List Bool → List Bool
five later = true ∷ true ∷ true ∷ true ∷ true ∷ later

abbrev incident : List Bool
incident = true ∷ five (five (five (five (five (five [])))))

assess-frozen_example :
    lookup "3-0" (assess {N = ℕ} profile "3-0" 2000 100 (some 500)).profile ≡ some usual
unfolding lookup assess evaluate_condition has_moved max cell_at from_dict mature_score z_score
    stddev
assess-frozen_example =
    assess-frozen profile "3-0" "3-0" 2000 100 (some 500) refl (omega arith) refl

authority_for-confidence_mono_example :
    (confidence busy corroboration_none 800 ≼ confidence high corroboration_none 800)
    × (rank (authority_for (confidence busy corroboration_none 800))
        ≤ rank (authority_for (confidence high corroboration_none 800)))
authority_for-confidence_mono_example =
    authority_for-confidence_mono decimal-IsOrdered busy high corroboration_none corroboration_none
      800 (record { cost = refl; cpu = refl; traffic = refl }) refl
