-- ===== src/Adapters/Traffic/Rates.antt =====
-- Which rate a workload is reported with.
use hypertrace.Prelude.{
  String, ◌≡◌, refl, ap, ◌∙◌, Option, none, some, List, [], ◌∷◌, Dict, lookup, lookup-insert,
  str_eq, if◌then◌else◌,
}
use hypertrace.Adapters.Traffic.{Series, series_key, add_rate, collect}

module _ {N : Type 0} where
  -- The rate of a service after a series with some key.
  abbrev pub replaced : String → Option String → N → Option N → Option N
  replaced key none value rate = rate
  replaced key (some k) value rate = if str_eq k key then some value else rate

  -- The last series with a key decides, and what was there before only when there is none.
  abbrev pub last_rate : String → List (Series N) → Option N → Option N
  last_rate key [] rate = rate
  last_rate key (s ∷ rest) rate = last_rate key rest (replaced key (series_key s) s.value rate)

  lookup-add_rate :
      (key : String) (k : Option String) (value : N) (rates : Dict N)
      → lookup key (add_rate k value rates) ≡ replaced key k value (lookup key rates)
  unfolding add_rate
  lookup-add_rate key none value rates = refl
  lookup-add_rate key (some k) value rates = lookup-insert k key value rates

  -- The rate that is collected for a service is that of the last series with both its labels.
  lookup-collect :
      (key : String) (series : List (Series N)) (rates : Dict N)
      → lookup key (collect series rates) ≡ last_rate key series (lookup key rates)
  unfolding collect
  lookup-collect key [] rates = refl
  lookup-collect key (s ∷ rest) rates =
      lookup-collect key rest (add_rate (series_key s) s.value rates)
      ∙ ap (last_rate key rest) (lookup-add_rate key (series_key s) s.value rates)
