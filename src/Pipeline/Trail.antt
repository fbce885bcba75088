-- ===== src/Pipeline/Trail.antt =====
-- The ledger as the audit trail that the decision engine, the API and the executor write together:
-- what answers for a row, and the requests on the bus.

pub mod Decided
pub mod Endpoints
pub mod Attended
pub mod Authorised
pub mod Carried
pub mod Runs
pub mod Growth
use hypertrace.Prelude.{
  String, ◌≡◌, sym, ap, ◌∙◌, refl, ◌⊎◌, inl, inr, Bool, true, false, Option, none, some, List, [],
  ◌∷◌, ◌++◌, All, All-map, All-append, All-at,
}
use mathlib.Core.Path.{subst}
use mathlib.Core.List.{Memᴰ, append-nil, append_assoc}
use mathlib.Core.List.Memᴰ.{not-nil, append_left, append_cases, eq_of_singleton}
use hypertrace.Schemas.{Mode, RemediationRequest}
use hypertrace.Tables.{ActionRow, ActionResult}
use hypertrace.Executor.Actions.Reported.{is_outcome}

-- A row of the ledger that another row names as its parent, with the anomaly of both.
pub record IsParent (log : List ActionRow) (row parent : ActionRow) : Type 0 where
  pub member : Memᴰ parent log
  pub named : row.parent_action_id ≡ some parent.id
  pub anomaly : row.anomaly_id ≡ parent.anomaly_id

-- What a row of an outcome and the dispatched row that it answers for agree on. A rollback that a
-- person asked for is sent without a service.
pub record IsOrder (action : String) (anomaly target : Option String) (parent : ActionRow)
    : Type 0 where
  pub dispatched : parent.result ≡ ActionResult.dispatched
  pub action_same : parent.action_type ≡ action
  pub anomaly_same : anomaly ≡ parent.anomaly_id
  pub target_same : (parent.target ≡ target) ⊎ (action ≡ "rollback")

-- The results of a decision that holds an action back.
abbrev pub is_withheld : ActionResult → Bool
is_withheld ActionResult.pending_approval = true
is_withheld ActionResult.alert_only_no_action_taken = true
is_withheld ActionResult.alert_only_low_confidence = true
is_withheld ActionResult.blocked_by_protected_floor = true
is_withheld _ = false

-- What answers for a row, in the ledger as it was when the row was written. The engine withheld an
-- action, or dispatched it on its own, which takes what `T` says; a person approved a pending row, or asked for the reversal of
-- an executed one; a dispatch of a person was not delivered; or the row is the outcome of a
-- dispatched one.
pub data Accounted (T : ActionRow → Type 0) (log : List ActionRow) (row : ActionRow) : Type 0 where
  withheld : row.parent_action_id ≡ none → is_withheld row.result ≡ true → Accounted T log row
  trusted :
      row.parent_action_id ≡ none
      → row.result ≡ ActionResult.dispatched
      → row.mode ≡ Mode.autonomous
      → T row
      → Accounted T log row
  approved :
      (parent : ActionRow)
      → IsParent log row parent
      → parent.result ≡ ActionResult.pending_approval
      → row.result ≡ ActionResult.dispatched
      → row.mode ≡ Mode.approved
      → row.action_type ≡ parent.action_type
      → Accounted T log row
  reversed :
      (parent : ActionRow)
      → IsParent log row parent
      → parent.result ≡ ActionResult.executed
      → row.result ≡ ActionResult.dispatched
      → row.mode ≡ Mode.approved
      → row.action_type ≡ "rollback"
      → row.rollback_ref ≡ some parent.id
      → Accounted T log row
  undelivered :
      (parent : ActionRow)
      → IsParent log row parent
      → parent.result ≡ ActionResult.dispatched
      → row.result ≡ ActionResult.dispatch_failed
      → Accounted T log row
  carried :
      (parent : ActionRow)
      → is_outcome row.result ≡ true
      → IsParent log row parent
      → IsOrder row.action_type row.anomaly_id row.target parent
      → Accounted T log row

-- Every row was accounted for by the rows before it.
pub data Audited (T : ActionRow → Type 0) : List ActionRow → Type 0 where
  empty : Audited T []
  entry :
      (log : List ActionRow) (row : ActionRow)
      → Audited T log
      → Accounted T log row
      → Audited T (log ++ row ∷ [])

-- A request on the bus names a dispatched row of the ledger, with its action, anomaly and service.
pub record Announced (log : List ActionRow) (m : RemediationRequest) : Type 0 where
  pub row : ActionRow
  pub member : Memᴰ row log
  pub named : row.id ≡ m.action_id
  pub order : IsOrder m.action m.anomaly_id (some m.service) row

-- The ledger that the services share, and what the broker has accepted.
pub record System : Type 0 where
  pub ledger : List ActionRow
  pub bus : List (String × RemediationRequest)

pub record IsSound (T : ActionRow → Type 0) (s : System) : Type 0 where
  pub audited : Audited T s.ledger
  pub announced : All (λ e. Announced s.ledger e.1) s.bus

-- Nothing of the ledger is ever changed or removed.
pub record IsAppended (log log' : List ActionRow) : Type 0 where
  pub rows : List ActionRow
  pub same : log' ≡ log ++ rows

pub IsAppended-refl : (log : List ActionRow) → IsAppended log log
IsAppended-refl log = record { rows = []; same = sym (append-nil log) }

pub Announced-later :
    (log rows : List ActionRow) (bus : List (String × RemediationRequest))
    → All (λ e. Announced log e.1) bus
    → All (λ e. Announced (log ++ rows) e.1) bus
Announced-later log rows bus h =
    All-map (λ e. Announced log e.1) (λ e. Announced (log ++ rows) e.1) bus
      (λ e a. record {
        row = a.row;
        member = append_left rows a.member;
        named = a.named;
        order = a.order;
      })
      h

-- A row of an audited ledger is accounted for by a part of the ledger that precedes it.
pub record IsTraced (T : ActionRow → Type 0) (log : List ActionRow) (row : ActionRow) : Type 0 where
  pub before : List ActionRow
  pub after : List ActionRow
  pub split : log ≡ before ++ row ∷ after
  pub accounted : Accounted T before row

pub Audited-IsTraced :
    (T : ActionRow → Type 0) (log : List ActionRow) (row : ActionRow)
    → Audited T log
    → Memᴰ row log
    → IsTraced T log row
Audited-IsTraced T _ row empty m = absurd (not-nil m)
Audited-IsTraced T _ row (entry log last a c) m = elim (append_cases log m) [
  | inl k ↦
      let t = Audited-IsTraced T log row a k in
      record {
        before = t.before;
        after = t.after ++ last ∷ [];
        split =
            ap (λ l. l ++ last ∷ []) t.split ∙ append_assoc t.before (row ∷ t.after) (last ∷ []);
        accounted = t.accounted;
      }
  | inr k ↦
      let e = eq_of_singleton k in
      record {
        before = log;
        after = [];
        split = subst (λ r. log ++ last ∷ [] ≡ log ++ r ∷ []) (sym e) refl;
        accounted = subst (Accounted T log) (sym e) c;
      }
]
