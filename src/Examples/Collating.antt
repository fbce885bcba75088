-- ===== src/Examples/Collating.antt =====
-- The summary of the dashboard, on three readings.
mod Texts
use hypertrace.Prelude.{
  ℕ, ◌≤◌, String, ◌≡◌, refl, sym, ap, ◌∙◌, Bool, true, false, none, [], ◌∷◌, List, All, length,
  IsSortedBy, select, sort_by, ltb, arith, if◌then◌else◌, Bool-cases, inl, inr, ◌⊎◌,
}
use hypertrace.Examples.Collating.Texts.{not_after, not_after-IsCollation}
use hypertrace.Float.Decimal.{decimal, decimal-IsOrdered}
use hypertrace.Tables.{CostRow}
use hypertrace.Bff.Dashboard.{summarise, is_dearer}
use hypertrace.Bff.Dashboard.Summary.{IsCollation, IsCurrent, summarise-IsCurrent}

abbrev reading : ℕ → String → ℕ → CostRow ℕ
reading time service cost = record {
  time = time;
  service = service;
  resource_type = "pod";
  unit_rate = 0;
  cost_per_hour = cost;
  cost_per_unit_of_work = none;
}

abbrev readings : List (CostRow ℕ)
readings =
    reading 900_000_000 "shop/cart" 700
    ∷ reading 960_000_000 "shop/api" 100
    ∷ reading 990_000_000 "shop/cart" 900
    ∷ []

summarise-IsCurrent_example :
    All
      (IsCurrent not_after not_after-IsCollation 1_000_000_000 readings)
      (summarise not_after 1_000_000_000 readings).top_services
    × (length (summarise not_after 1_000_000_000 readings).top_services ≤ 10)
    × IsSortedBy (is_dearer not_after) (summarise not_after 1_000_000_000 readings).top_services
summarise-IsCurrent_example =
    summarise-IsCurrent not_after not_after-IsCollation decimal-IsOrdered 1_000_000_000 readings
