-- ===== src/Pipeline/Undoing/Restored.antt =====
-- A throttle and its rollback, which give back the limit.
use hypertrace.Prelude.{◌+◌, ◌≤◌, String, ◌≡◌, sym, ap, ◌∙◌, Option, some, List, [], ◌∷◌, ◌++◌}
use mathlib.Core.Path.{subst}
use hypertrace.Effects.{ok, minutes}
use hypertrace.Schemas.{RemediationRequest}
use hypertrace.Tables.{ActionRow, ActionResult}
use hypertrace.Bff.Actions.{rollback_request}
use hypertrace.Executor.Cluster.{Kubernetes, LimitIs, IsConsistent}
use hypertrace.Executor.Service.{split_service}
use hypertrace.Executor.Actions.{rollback}
use hypertrace.Executor.Actions.Restore.{throttle-IsCapped, rollback-throttle}
use hypertrace.Executor.Limits.{rollback_window_minutes}
use hypertrace.Executor.Handler.{load_action, handle}
use hypertrace.Executor.Handler.Safety.{State}
use hypertrace.Pipeline.Undoing.Carried.{handle-Carried}
use hypertrace.Pipeline.Undoing.Undone.{handle-roll_back, roll_back-Undone}

module _ (K : Kubernetes) (laws : IsConsistent K) where
  -- A person may undo what the executor did: if a throttle request left an executed row, and the
  -- executor, within an hour of that row and on a cluster that is as the throttle left it, answers
  -- the rollback request that the API publishes for that row, then the first container of the
  -- deployment has the limit that it had before the throttle. The row is the first of its identifier
  -- in the ledger.
  pub handle-undone :
      (prefixes : List String) (m : RemediationRequest) (w w2 : State K) (row : ActionRow)
      (id anomaly_id : String)
      → m.action ≡ "throttle"
      → (handle K prefixes m w).1.own.actions_log ≡ w.own.actions_log ++ row ∷ []
      → row.result ≡ ActionResult.executed
      → w2.own.cluster ≡ (handle K prefixes m w).1.own.cluster
      → load_action row.id w2.own.actions_log ≡ some row
      → w2.clock w2.reads ≤ row.executed_at + minutes rollback_window_minutes
      → (handle K prefixes (rollback_request id anomaly_id row.id) w2).0 ≡ ok tt
      → (container : String) × (before : Option String) × LimitIs K w.own.cluster
          (split_service m.service).1
          (split_service m.service).0
          container
          before
        × LimitIs K
            (handle K prefixes (rollback_request id anomaly_id row.id) w2).1.own.cluster
            (split_service m.service).1
            (split_service m.service).0
            container
            before
  handle-undone prefixes m w w2 row id anomaly_id a h e cluster found time answered =
      let c = handle-Carried K prefixes m w row a h e in
      let capped =
        throttle-IsCapped K laws m.service w.own.cluster c.cluster c.outcome c.answered
          c.executed in
      let same = handle-roll_back K prefixes id anomaly_id row w2 found in
      let u =
        roll_back-Undone K (rollback_request id anomaly_id row.id) row _ _ w2
          (c.prior ∙ capped.reference) c.deadline time (sym (ap (λ p. p.0) same) ∙ answered) in
      let (container, before, had, has) =
        rollback-throttle K laws m.service w.own.cluster c.cluster u.cluster c.outcome u.outcome
          u.prior c.answered c.executed (sym c.prior ∙ u.found)
          (ap (λ x. rollback K x u.prior) (sym (cluster ∙ c.left)) ∙ u.answered) in
      let left : (handle K prefixes (rollback_request id anomaly_id row.id) w2).1.own.cluster
          ≡ u.cluster =
        ap (λ p. p.1.own.cluster) same ∙ u.left in
      (
        container,
        before,
        had,
        subst
            (λ x.
              LimitIs K x (split_service m.service).1 (split_service m.service).0 container before)
            (sym left) has,
      )
