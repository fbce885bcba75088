-- ===== src/Pipeline/Trail/Carried.antt =====
-- What the executor adds to the audit trail.
use hypertrace.Prelude.{String, ◌≡◌, refl, sym, ap, ◌∙◌, some, true, List, [], ◌∷◌, ◌++◌}
use hypertrace.Effects.{Result, ok, err}
use hypertrace.Schemas.{RemediationRequest}
use hypertrace.Tables.{ActionRow}
use hypertrace.Executor.Actions.Reported.{is_outcome}
use hypertrace.Executor.Cluster.{Kubernetes}
use hypertrace.Executor.Handler.{handle, outcome_row}
use hypertrace.Executor.Handler.Safety.{State, Recorded, handle-Recorded}
use hypertrace.Pipeline.Trail.{Accounted, carried, Announced, System}
use hypertrace.Pipeline.Trail.Growth.{Growth, same, noted}

outcome-Accounted :
    (T : ActionRow → Type 0) (log : List ActionRow) (m : RemediationRequest) (row : ActionRow)
    → Announced log m
    → is_outcome row.result ≡ true
    → row.parent_action_id ≡ some m.action_id
    → row.action_type ≡ m.action
    → row.anomaly_id ≡ m.anomaly_id
    → row.target ≡ some m.service
    → Accounted T log row
outcome-Accounted T log m row a h parent action anomaly target =
    carried a.row h
      (record {
        member = a.member;
        named = parent ∙ ap some (sym a.named);
        anomaly = anomaly ∙ a.order.anomaly_same;
      })
      (rw (action, anomaly, target) a.order)

module _ (T : ActionRow → Type 0) (K : Kubernetes) where
  Recorded-Growth :
      (s : System) (m : RemediationRequest) (w : State K) (p : Result (Unit {0}) × State K)
      → w.own.actions_log ≡ s.ledger
      → Announced s.ledger m
      → Recorded K m w p
      → Growth T s (record s { ledger = p.1.own.actions_log })
  Recorded-Growth s m w (ok u, w') shared a (at, result, d, h, rows) =
      noted s _ (outcome_row (w.uuid w.made) at m result d)
        (outcome-Accounted T s.ledger m _ a h refl refl refl refl)
        (rows ∙ ap (λ l. l ++ outcome_row (w.uuid w.made) at m result d ∷ []) shared) refl
  Recorded-Growth s m w (err e, w') shared a rows = same s _ (rows ∙ shared) refl

  -- A request of the bus handled, on the ledger that the services share.
  pub handle-Growth :
      (prefixes : List String) (s : System) (m : RemediationRequest) (w : State K)
      → w.own.actions_log ≡ s.ledger
      → Announced s.ledger m
      → Growth T s (record s { ledger = (handle K prefixes m w).1.own.actions_log })
  handle-Growth prefixes s m w shared a =
      Recorded-Growth s m w _ shared a (handle-Recorded K prefixes m w)
