-- ===== src/Cost.antt =====
-- services/cost-intelligence: the Cost Intelligence Engine, app/main.py and app/pricing.py.
pub mod Identity
use hypertrace.Prelude.{
  ℕ, String, ◌<>◌, Option, none, some, List, [], ◌∷◌, ◌++◌, str_eq, Dict, lookup, if◌then◌else◌,
}
use hypertrace.Float.{Float}
use hypertrace.Messaging.{routing_key_cost}
use hypertrace.Effects.{Result, ok, err, key_error, Exec, pure, modify, now, publish, ◌>>=◌, ◌>>◌}
use hypertrace.Schemas.{ResourceRef, MetricEvent, CostEvent}
use hypertrace.Tables.{CostRow}

pub record PricingModel (N : Type 0) : Type 0 where
  pub cpu_core_hour : N
  pub memory_gb_hour : N

-- Python's truth of an optional text.
unfoldable pub truthy : Option String → Option String
truthy none = none
truthy (some s) = if str_eq s "" then none else some s

-- `_service_id`
unfoldable pub service_id : ResourceRef → Option String
service_id r = elim (truthy r.pod) [
  | none ↦ none
  | some pod ↦
      some
        (r.namespace <> ("/" <> elim (truthy r.service) [ some workload ↦ workload | none ↦ pod ]))
]

abbrev pub bytes_per_gb : ℕ
bytes_per_gb = 1073741824

-- `float(raw[key])`: KeyError where the key is missing, and what `float` makes of its value otherwise.
unfoldable pub price : {V N : Type 0} → (V → Result N) → String → Dict V → Result N
price to_float key raw = elim (lookup key raw) [ none ↦ err key_error | some v ↦ to_float v ]

-- `load_pricing`, from the document that the file holds on. Opening the file, PyYAML and `float` are
-- arguments: the document or what reading it raises, and the number that a value stands for.
unfoldable pub load_pricing :
    {V N : Type 0} → (V → Result N) → Result (Dict V) → Result (PricingModel N)
load_pricing to_float (err e) = err e
load_pricing to_float (ok raw) = elim (price to_float "cpu_core_hour" raw) [
  | err e ↦ err e
  | ok cpu ↦ elim (price to_float "memory_gb_hour" raw) [
    | err e ↦ err e
    | ok memory ↦ ok (record { cpu_core_hour = cpu; memory_gb_hour = memory })
  ]
]

module _ {N : Type 0} ⦃f : Float N⦄ where
  unfoldable pub cost_per_hour : PricingModel N → N → ℕ → N
  cost_per_hour p cpu_cores memory_bytes =
      f.add (f.mul cpu_cores p.cpu_core_hour)
        (f.mul (f.div (f.of_nat memory_bytes) (f.of_nat bytes_per_gb)) p.memory_gb_hour)

  -- The row and the message for one reading.
  abbrev pub cost_row : PricingModel N → MetricEvent N → String → ℕ → CostRow N
  cost_row p m service at = record {
    time = at;
    service = service;
    resource_type = "compute";
    unit_rate = p.cpu_core_hour;
    cost_per_hour = cost_per_hour p m.cpu_usage_cores m.memory_working_set_bytes;
    cost_per_unit_of_work = none;
  }

  abbrev pub cost_event : PricingModel N → MetricEvent N → String → ℕ → CostEvent N
  cost_event p m service at = record {
    timestamp = at;
    service = service;
    resource = m.resource;
    resource_type = "compute";
    unit_rate = p.cpu_core_hour;
    cost_per_hour = cost_per_hour p m.cpu_usage_cores m.memory_working_set_bytes;
    cost_per_unit_of_work = none;
    cpu_cores = some m.cpu_usage_cores;
  }

  unfoldable pub attribute :
      PricingModel N
      → MetricEvent N
      → Option String
      → Exec (CostEvent N) (List (CostRow N)) (Unit {0})
  attribute p m none = pure tt
  attribute p m (some service) = do
    at ← now
    modify (λ rows. rows ++ cost_row p m service at ∷ [])
    publish routing_key_cost (cost_event p m service at)

  -- `handle`
  unfoldable pub handle :
      PricingModel N → MetricEvent N → Exec (CostEvent N) (List (CostRow N)) (Unit {0})
  handle p m = attribute p m (service_id m.resource)
