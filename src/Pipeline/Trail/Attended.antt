-- ===== src/Pipeline/Trail/Attended.antt =====
-- The detector joined to the other three services.
use hypertrace.Prelude.{String, ◌≡◌, ◌≢◌, true, List, [], ◌∷◌, ◌++◌, sym, ◌∙◌}
use mathlib.Core.List.{Memᴰ}
use hypertrace.Float.{Float}
use hypertrace.Float.Laws.{IsOrdered}
use hypertrace.Messaging.{routing_key_anomaly}
use hypertrace.Schemas.{Anomaly, Mode}
use hypertrace.Tables.{ActionRow, ActionResult}
use hypertrace.Behaviour.Confidence.Bounds.{authority_800}
use hypertrace.Behaviour.Handler.{CostMessage, handle_cost}
use hypertrace.Behaviour.Handler.Flagging.{handle_cost-Flag}
use hypertrace.Behaviour.Handler.Flagging as Detector
use hypertrace.Decision.Authority.{Authority, authority_for}
use hypertrace.Decision.Handler.{score_confidence}
use hypertrace.Bff.Auth.{Crypto}
use hypertrace.Executor.Cluster.{Kubernetes}
use hypertrace.Executor.Limits.{is_executed}
use hypertrace.Pipeline.Advisory.{concat≢self, published-low}
use hypertrace.Pipeline.Trail.{IsParent, System, IsSound}
use hypertrace.Pipeline.Trail.Decided.{Earned}
use hypertrace.Pipeline.Trail.Runs.{Run}
use hypertrace.Pipeline.Trail.Authorised.{Origin, engine, approval, reversal, run-Authorised}

-- An anomaly that the detector published, at some reading and in some state of its baselines.
pub record Published (N : Type 0) ⦃f : Float N⦄ (a : Anomaly N) : Type 0 where
  pub message : CostMessage N
  pub world : Detector.State N
  pub sent : (handle_cost message world).1.mq.sent ≡ world.mq.sent ++ (routing_key_anomaly, a) ∷ []

module _ (N : Type 0) ⦃f : Float N⦄ (o : IsOrdered N) (prefixes : List String) where
  published-advisory :
      (a : Anomaly N) → Published N a → authority_for (score_confidence a) ≢ Authority.autonomous
  published-advisory a p =
      let flag =
        handle_cost-Flag o p.message p.world
          (λ e. concat≢self p.world.mq.sent _ (sym p.sent ∙ e)) in
      authority_800 o _ (published-low o p.message p.world _ a p.sent flag)

  origin-approved :
      (log : List ActionRow) (order : ActionRow)
      → Origin (Earned prefixes (Published N)) log order
      → order.mode ≡ Mode.approved
  origin-approved log order (engine p m t) = absurd (published-advisory t.anomaly t.given t.earned)
  origin-approved log order (approval parent p r m a) = m
  origin-approved log order (reversal parent p r m a b) = m

  -- Where floats are finite and the decision engine is given only what the detector published: after
  -- any run from a ledger that is accounted for, every row that was executed or rolled back answers
  -- for a dispatched row that a person wrote through the API.
  pub run-attended :
      (K : Kubernetes) (k : Crypto) (s t : System)
      → IsSound (Earned prefixes (Published N)) s
      → Run N K k prefixes (Published N) s t
      → (row : ActionRow) → Memᴰ row t.ledger
      → is_executed row.result ≡ true
      → (order : ActionRow) × IsParent t.ledger row order
        × (order.result ≡ ActionResult.dispatched)
        × (order.mode ≡ Mode.approved)
  run-attended K k s t sound run row m h =
      let a = run-Authorised N K k prefixes (Published N) s t sound run row m h in
      (a.order, a.parent, a.agrees.dispatched, origin-approved t.ledger a.order a.origin)
