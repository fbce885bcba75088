-- ===== src/Pipeline/Trail/Runs.antt =====
-- The three services over runs, in any order, with every message delivered any number of times.
use hypertrace.Prelude.{String, ◌≡◌, List, All-at}
use mathlib.Core.List.{Memᴰ}
use hypertrace.Float.{Float}
use hypertrace.Schemas.{Anomaly, RemediationRequest}
use hypertrace.Bff.Auth.{Crypto}
use hypertrace.Bff.Actions.{approve_action, rollback_action}
use hypertrace.Bff.Actions as Api
use hypertrace.Decision.Handler.{handle_anomaly}
use hypertrace.Decision.Handler.Reading as Engine
use hypertrace.Executor.Cluster.{Kubernetes}
use hypertrace.Executor.Handler.{handle}
use hypertrace.Executor.Handler.Safety as Executor
use hypertrace.Pipeline.Trail.{Announced, System, IsSound, IsAppended, IsAppended-refl}
use hypertrace.Pipeline.Trail.Decided.{Earned, handle_anomaly-Growth}
use hypertrace.Pipeline.Trail.Decided as Decided
use hypertrace.Pipeline.Trail.Endpoints.{approve_action-Growth, rollback_action-Growth}
use hypertrace.Pipeline.Trail.Endpoints as Endpoints
use hypertrace.Pipeline.Trail.Carried.{handle-Growth}
use hypertrace.Pipeline.Trail.Growth.{Growth, Growth-IsSound, Growth-IsAppended, IsAppended-trans}

module _ (N : Type 0) ⦃f : Float N⦄ (K : Kubernetes) (k : Crypto) (prefixes : List String)
    (P : Anomaly N → Type 0) where
  -- One call of a service on the ledger and the bus: of the decision engine with an anomaly that it may be given, of one
  -- of the two endpoints of the API, or of the executor with a request that the bus has carried.
  -- All else in the world of a service, its clock, its identifiers and whether its broker is there,
  -- may be anything at every call.
  pub data Step : System → System → Type 0 where
    decides :
        (m : Anomaly N) (w : Engine.State N)
        → P m
        → Step (Decided.shared w) (Decided.shared (handle_anomaly prefixes m w).1)
    approves :
        (token anomaly_id : String) (w : Api.State N)
        → Step (Endpoints.shared w) (Endpoints.shared (approve_action k token anomaly_id w).1)
    reverses :
        (token anomaly_id : String) (w : Api.State N)
        → Step (Endpoints.shared w) (Endpoints.shared (rollback_action k token anomaly_id w).1)
    handles :
        (s : System) (key : String) (m : RemediationRequest) (w : Executor.State K)
        → Memᴰ (key, m) s.bus
        → w.own.actions_log ≡ s.ledger
        → Step s (record s { ledger = (handle K prefixes m w).1.own.actions_log })

  pub data Run : System → System → Type 0 where
    stop : (s : System) → Run s s
    go : (s t u : System) → Step s t → Run t u → Run s u

  Step-Growth :
      (s t : System) → IsSound (Earned prefixes P) s → Step s t → Growth (Earned prefixes P) s t
  Step-Growth _ _ h (decides m w given) = handle_anomaly-Growth prefixes P m w given
  Step-Growth _ _ h (approves token anomaly_id w) =
      approve_action-Growth (Earned prefixes P) k token anomaly_id w
  Step-Growth _ _ h (reverses token anomaly_id w) =
      rollback_action-Growth (Earned prefixes P) k token anomaly_id w
  Step-Growth _ _ h (handles s key m w sent shared) =
      handle-Growth (Earned prefixes P) K prefixes s m w shared
        (All-at (λ e. Announced s.ledger e.1) s.bus h.announced sent)

  -- Whatever the three services do on one ledger and one bus, in whatever order, with every request
  -- delivered any number of times or never: if every row is accounted for by the rows before it, and
  -- every request names a dispatched row with its action, anomaly and service, then it stays so, and
  -- no row is ever changed or removed.
  pub run-IsSound :
      (s t : System)
      → IsSound (Earned prefixes P) s
      → Run s t
      → IsSound (Earned prefixes P) t × IsAppended s.ledger t.ledger
  run-IsSound _ _ h (stop s) = (h, IsAppended-refl s.ledger)
  run-IsSound _ _ h (go s t u step run) =
      let g = Step-Growth s t h step in
      let (sound, later) = run-IsSound t u (Growth-IsSound (Earned prefixes P) s t g h) run in
      (
        sound,
        IsAppended-trans s.ledger t.ledger u.ledger (Growth-IsAppended (Earned prefixes P) s t g)
            later,
      )
