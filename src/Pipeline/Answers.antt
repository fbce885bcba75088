-- ===== src/Pipeline/Answers.antt =====
-- What the decision engine dispatches, handled by the executor on the same ledger.
use hypertrace.Prelude.{ℕ, String, ◌≡◌, refl, ap, ◌∙◌, sym, some, List, [], ◌∷◌, ◌++◌}
use mathlib.Core.Path.{subst}
use mathlib.Core.List.{append_cancel_left, head-eq_of_cons-eq, append_assoc}
use hypertrace.Float.{Float}
use hypertrace.Messaging.{routing_key_remediation}
use hypertrace.Effects.{Result, ok, err}
use hypertrace.Schemas.{Anomaly, Mode, RemediationRequest}
use hypertrace.Tables.{ActionRow, ActionResult}
use hypertrace.Decision.Handler.{handle_anomaly, decision_row}
use hypertrace.Decision.Handler.Reading.{State}
use hypertrace.Decision.Handler.Dispatch.{handle_anomaly-Dispatch}
use hypertrace.Executor.Cluster.{Kubernetes}
use hypertrace.Executor.Handler.{handle, outcome_row}
use hypertrace.Executor.Handler.Safety as Safety
use hypertrace.Executor.Handler.Safety.{Recorded, handle-Recorded}
use hypertrace.Pipeline.Advisory.{concat≢self}

-- The row of an outcome answers for that of a decision: it names it, its anomaly and its service.
pub record AnswersFor (decided row : ActionRow) : Type 0 where
  pub parent : row.parent_action_id ≡ some decided.id
  pub anomaly : row.anomaly_id ≡ decided.anomaly_id
  pub target : row.target ≡ decided.target
  pub mode : row.mode ≡ decided.mode

-- How the executor leaves the ledger after a decision: with one row that answers for it, or, when it
-- raises, with none.
pub data Answered (K : Kubernetes) (log : List ActionRow) (decided : ActionRow)
    : Result (Unit {0}) × Safety.State K → Type 0 where
  answered :
      (w : Safety.State K) (row : ActionRow)
      → AnswersFor decided row
      → w.own.actions_log ≡ log ++ decided ∷ row ∷ []
      → Answered K log decided (ok tt, w)
  unanswered :
      (w : Safety.State K) (e : _)
      → w.own.actions_log ≡ log ++ decided ∷ []
      → Answered K log decided (err e, w)

module _ (K : Kubernetes) where
  outcome-Answered :
      (log : List ActionRow) (decided : ActionRow) (r : RemediationRequest) (w : Safety.State K)
      (p : Result (Unit {0}) × Safety.State K)
      → w.own.actions_log ≡ log ++ decided ∷ []
      → ((at : ℕ) (result : ActionResult) (d : _) (id : String)
          → AnswersFor decided (outcome_row id at r result d))
      → Recorded K r w p
      → Answered K log decided p
  outcome-Answered log decided r w (ok u, w') shared answers (at, result, d, h, rows) =
      answered w' (outcome_row (w.uuid w.made) at r result d) (answers at result d _) (
        rows
        ∙ ap (λ l. l ++ outcome_row (w.uuid w.made) at r result d ∷ []) shared
        ∙ append_assoc log (decided ∷ []) _)
  outcome-Answered log decided r w (err e, w') shared answers rows = unanswered w' e (rows ∙ shared)

module _ {N : Type 0} ⦃f : Float N⦄ (K : Kubernetes) where
  -- A request that the decision engine sends has a dispatched row in the ledger by then; when the
  -- executor handles the request on that ledger, it leaves after it one row that answers for it,
  -- with its anomaly, service and mode, unless the handling raises, which leaves none.
  pub handle_anomaly-handle :
      (prefixes : List String) (m : Anomaly N) (d : State N) (r : RemediationRequest)
      (e : Safety.State K)
      → (handle_anomaly prefixes m d).1.mq.sent ≡ d.mq.sent ++ (routing_key_remediation, r) ∷ []
      → e.own.actions_log ≡ (handle_anomaly prefixes m d).1.own.actions_log
      → (decided : ActionRow) × (decided.result ≡ ActionResult.dispatched)
        × Answered K d.own.actions_log decided (handle K prefixes r e)
  handle_anomaly-handle prefixes m d r e sent shared =
      let dispatch =
        handle_anomaly-Dispatch prefixes m d (λ h. concat≢self d.mq.sent _ (sym sent ∙ h)) in
      let l = dispatch.chosen.left in
      let same =
        ap (λ p. p.1) (head-eq_of_cons-eq (append_cancel_left d.mq.sent _ _ (sym l.sent ∙ sent))) in
      let decided =
        decision_row (d.uuid d.made) l.at m l.action ActionResult.dispatched Mode.autonomous in
      (
        decided,
        refl,
        outcome-Answered K d.own.actions_log decided r e (handle K prefixes r e)
            (shared ∙ l.recorded)
            (λ at result details id.
              subst (λ r. AnswersFor decided (outcome_row id at r result details)) same
                (record { parent = refl; anomaly = refl; target = refl; mode = refl }))
            (handle-Recorded K prefixes r e),
      )
