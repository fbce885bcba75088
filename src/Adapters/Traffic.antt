-- ===== src/Adapters/Traffic.antt =====
-- services/traffic-adapter/app/main.py: the request rates that Prometheus answers with.
pub mod Rates
use hypertrace.Prelude.{
  ℕ, ◌-◌, String, ◌<>◌, Option, none, some, List, [], ◌∷◌, Dict, insert, str_eq, if◌then◌else◌,
}
use hypertrace.Float.{Float}
use hypertrace.Messaging.{routing_key_traffic}
use hypertrace.Effects.{
  Exec, World, Result, ok, err, pure, raise, or_raise, now, publish, value_error, ◌>>=◌, ◌>>◌,
}
use hypertrace.Schemas.{TrafficSample}

-- A series of the answer, with the labels that are read and the value already a float.
pub record Series (N : Type 0) : Type 0 where
  pub namespace : Option String
  pub app : Option String
  pub value : N

-- The answer of Prometheus.
pub record Payload (N : Type 0) : Type 0 where
  pub status : String
  pub result : List (Series N)

-- A label that is there and not empty.
unfoldable pub label : Option String → Option String
label none = none
label (some s) = if str_eq s "" then none else some s

unfoldable pub key_of : Option String → Option String → Option String
key_of none app = none
key_of (some namespace) none = none
key_of (some namespace) (some app) = some (namespace <> ("/" <> app))

module _ {N : Type 0} where
  unfoldable pub series_key : Series N → Option String
  series_key s = key_of (label s.namespace) (label s.app)

  -- The body of the loop, by the key of the series.
  unfoldable pub add_rate : Option String → N → Dict N → Dict N
  add_rate none value rates = rates
  add_rate (some key) value rates = insert key value rates

  -- The loop over the series.
  unfoldable pub collect : List (Series N) → Dict N → Dict N
  collect [] rates = rates
  collect (s ∷ rest) rates = collect rest (add_rate (series_key s) s.value rates)

  -- `_fetch_rates`, from the payload on.
  unfoldable pub fetch_rates : Payload N → Option (Dict N)
  fetch_rates p = if str_eq p.status "success" then some (collect p.result []) else none

  unfoldable pub publish_rates : {S : Type 0} → ℕ → Dict N → Exec (TrafficSample N) S (Unit {0})
  publish_rates at [] = pure tt
  publish_rates at ((service, rps) ∷ rest) = do
    publish routing_key_traffic
        (record { timestamp = at; service = service; requests_per_second = rps })
    publish_rates at rest

  -- A turn of the loop of `main`; the exception of a failed poll is a `RuntimeError`.
  unfoldable pub poll : {S : Type 0} → Payload N → Exec (TrafficSample N) S (Unit {0})
  poll p = do rates ← or_raise (fetch_rates p) value_error; at ← now; publish_rates at rates

-- A turn of the loop: what Prometheus answers, if it does, and the monotonic clock before and after
-- the poll, in microseconds.
pub record Turn (N : Type 0) : Type 0 where
  pub payload : Result (Payload N)
  pub started : ℕ
  pub ended : ℕ

module _ {N : Type 0} where
  -- `max(0.0, POLL_INTERVAL_SECONDS - elapsed)`, with the interval in microseconds
  abbrev pub pause : ℕ → Turn N → ℕ
  pause interval t = interval - (t.ended - t.started)

  abbrev pub poll_turn : {S : Type 0} → Result (Payload N) → Exec (TrafficSample N) S (Unit {0})
  poll_turn (ok payload) = poll payload
  poll_turn (err e) = raise e

  -- The loop of `main` on the turns that it takes: the pauses, and what is left. What a poll raises
  -- is passed over.
  unfoldable pub poll_loop :
      {S : Type 0}
      → ℕ
      → List (Turn N)
      → World (TrafficSample N) S
      → List ℕ × World (TrafficSample N) S
  poll_loop interval [] w = ([], w)
  poll_loop interval (t ∷ turns) w =
      let (pauses, w') = poll_loop interval turns (poll_turn t.payload w).1 in
      (pause interval t ∷ pauses, w')
