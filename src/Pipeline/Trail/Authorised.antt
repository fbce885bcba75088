-- ===== src/Pipeline/Trail/Authorised.antt =====
-- Who answers for an action that was executed.
use hypertrace.Prelude.{String, ◌≡◌, sym, true, none, some, List, ◌∷◌, ◌++◌, arith}
use mathlib.Core.Path.{subst}
use mathlib.Core.List.{Memᴰ}
use mathlib.Core.List.Memᴰ.{append_left}
use hypertrace.Float.{Float}
use hypertrace.Schemas.{Anomaly, Mode}
use hypertrace.Tables.{ActionRow, ActionResult}
use hypertrace.Bff.Auth.{Crypto}
use hypertrace.Executor.Cluster.{Kubernetes}
use hypertrace.Executor.Limits.{is_executed}
use hypertrace.Pipeline.Trail.{
  Accounted, withheld, trusted, approved, reversed, undelivered, carried, Audited, IsParent,
  IsOrder, IsTraced, Audited-IsTraced, System, IsSound,
}
use hypertrace.Pipeline.Trail.Decided.{Earned}
use hypertrace.Pipeline.Trail.Runs.{Run, run-IsSound}

-- Where the authority of a dispatched row comes from: the engine alone, a person who approved what
-- the engine had left pending, or a person who reverses what was executed.
pub data Origin (T : ActionRow → Type 0) (log : List ActionRow) (order : ActionRow) : Type 0 where
  engine :
      order.parent_action_id ≡ none → order.mode ≡ Mode.autonomous → T order → Origin T log order
  approval :
      (pending : ActionRow)
      → IsParent log order pending
      → pending.result ≡ ActionResult.pending_approval
      → order.mode ≡ Mode.approved
      → order.action_type ≡ pending.action_type
      → Origin T log order
  reversal :
      (done : ActionRow)
      → IsParent log order done
      → done.result ≡ ActionResult.executed
      → order.mode ≡ Mode.approved
      → order.action_type ≡ "rollback"
      → order.rollback_ref ≡ some done.id
      → Origin T log order

-- The order of a row that executed, and the authority of the order.
pub record Authorised (T : ActionRow → Type 0) (log : List ActionRow) (row : ActionRow)
    : Type 0 where
  pub order : ActionRow
  pub parent : IsParent log row order
  pub agrees : IsOrder row.action_type row.anomaly_id row.target order
  pub origin : Origin T log order

IsParent-earlier :
    (log before after : List ActionRow) (row parent : ActionRow)
    → log ≡ before ++ after
    → IsParent before row parent
    → IsParent log row parent
IsParent-earlier log before after row parent e h = record {
  member = subst (Memᴰ parent) (sym e) (append_left after h.member);
  named = h.named;
  anomaly = h.anomaly;
}

module _ (T : ActionRow → Type 0) (log before after : List ActionRow) (row : ActionRow)
    (e : log ≡ before ++ after) where
  Accounted-Origin :
      Accounted T before row → row.result ≡ ActionResult.dispatched → Origin T log row
  Accounted-Origin (withheld p r) h = absurd (ground arith)
  Accounted-Origin (trusted p r m t) h = engine p m t
  Accounted-Origin (approved parent p r s m a) h =
      approval parent (IsParent-earlier log before after row parent e p) r m a
  Accounted-Origin (reversed parent p r s m a b) h =
      reversal parent (IsParent-earlier log before after row parent e p) r m a b
  Accounted-Origin (undelivered parent p r s) h = absurd (ground arith)
  Accounted-Origin (carried parent r p o) h = absurd (ground arith)

traced-Origin :
    (T : ActionRow → Type 0) (log : List ActionRow) (row : ActionRow)
    → IsTraced T log row
    → row.result ≡ ActionResult.dispatched
    → Origin T log row
traced-Origin T log row t h =
    Accounted-Origin T log t.before (row ∷ t.after) row t.split t.accounted h

module _ (T : ActionRow → Type 0) (log : List ActionRow) (audited : Audited T log) where
  Accounted-Authorised :
      (before after : List ActionRow) (row : ActionRow)
      → log ≡ before ++ after
      → Accounted T before row
      → is_executed row.result ≡ true
      → Authorised T log row
  Accounted-Authorised before after row e (withheld p r) h = absurd (ground arith)
  Accounted-Authorised before after row e (trusted p r m t) h = absurd (ground arith)
  Accounted-Authorised before after row e (approved parent p r s m a) h = absurd (ground arith)
  Accounted-Authorised before after row e (reversed parent p r s m a b) h = absurd (ground arith)
  Accounted-Authorised before after row e (undelivered parent p r s) h = absurd (ground arith)
  Accounted-Authorised before after row e (carried parent r p o) h =
      let found = IsParent-earlier log before after row parent e p in
      record {
        order = parent;
        parent = found;
        agrees = o;
        origin =
            traced-Origin T log parent (Audited-IsTraced T log parent audited found.member)
              o.dispatched;
      }

  Audited-Authorised :
      (row : ActionRow) → Memᴰ row log → is_executed row.result ≡ true → Authorised T log row
  Audited-Authorised row m h =
      let t = Audited-IsTraced T log row audited m in
      Accounted-Authorised t.before (row ∷ t.after) row t.split t.accounted h

module _ (N : Type 0) ⦃f : Float N⦄ (K : Kubernetes) (k : Crypto) (prefixes : List String)
    (P : Anomaly N → Type 0) where
  -- After any run of the three services from a ledger that is accounted for, every row that was
  -- executed or rolled back answers for a dispatched row of its action and its anomaly (and of its service,
  -- unless it is a rollback), which the engine wrote on its own authority, or a person wrote who
  -- approved a pending row of the same action and anomaly, or who reverses an executed row of the
  -- anomaly.
  pub run-Authorised :
      (s t : System)
      → IsSound (Earned prefixes P) s
      → Run N K k prefixes P s t
      → (row : ActionRow) → Memᴰ row t.ledger
      → is_executed row.result ≡ true
      → Authorised (Earned prefixes P) t.ledger row
  run-Authorised s t sound run row m h =
      let (later, grown) = run-IsSound N K k prefixes P s t sound run in
      Audited-Authorised (Earned prefixes P) t.ledger later.audited row m h
