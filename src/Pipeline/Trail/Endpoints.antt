-- ===== src/Pipeline/Trail/Endpoints.antt =====
-- What the API adds to the audit trail.
use hypertrace.Prelude.{
  ℕ, Bool, String, ◌≡◌, refl, sym, ap, ◌∙◌, true, inl, inr, get_or, Option, none, some, List, [],
  ◌∷◌, ◌++◌, eq_iff, arith,
}
use mathlib.Core.List.{Memᴰ}
use mathlib.Core.List.Memᴰ.{append_right}
use hypertrace.Effects.{Result}
use hypertrace.Schemas.{RemediationRequest}
use hypertrace.Tables.{ActionRow, ActionResult}
use hypertrace.Bff.Auth.{Crypto}
use hypertrace.Bff.Auth.Access.{gated}
use hypertrace.Bff.Actions.{
  State, ActionDispatched, appended, is_pending, is_executed, is_about, latest, service_of,
  approval_request, rollback_request, approve_action, rollback_action,
}
use hypertrace.Bff.Actions.Latest.{latest-greatest}
use hypertrace.Bff.Actions.Approval.{
  Dispatched, answered, unsent, Approved, approve_action-Approved,
}
use hypertrace.Bff.Actions.Approval
use hypertrace.Bff.Actions.Reversal
use hypertrace.Bff.Actions.Reversal.{Reversed, rollback_action-Reversed}
use hypertrace.Pipeline.Trail.{
  Accounted, approved, reversed, undelivered, IsParent, IsOrder, System,
}
use hypertrace.Pipeline.Trail.Growth.{Growth, same, noted, ordered, both}

is_about-eq :
    (anomaly_id : String) (o : Option String) → is_about anomaly_id o ≡ true → o ≡ some anomaly_id
is_about-eq anomaly_id none h = ground arith
is_about-eq anomaly_id (some id) h = ap some ((eq_iff id anomaly_id).0 h)

is_pending-eq : (r : ActionResult) → is_pending r ≡ true → r ≡ ActionResult.pending_approval
is_pending-eq r h = ground arith

is_executed-eq : (r : ActionResult) → is_executed r ≡ true → r ≡ ActionResult.executed
is_executed-eq r h = ground arith

-- The row that an endpoint acts on is one of the ledger and of the anomaly, with the result that was
-- looked for.
latest-IsParent :
    (has_result : ActionResult → Bool) (anomaly_id : String) (rows : List ActionRow)
    (row new : ActionRow)
    → latest has_result anomaly_id rows ≡ some row
    → new.parent_action_id ≡ some row.id
    → new.anomaly_id ≡ some anomaly_id
    → IsParent rows new row × (has_result row.result ≡ true)
latest-IsParent has_result anomaly_id rows row new h named about =
    let found = latest-greatest has_result anomaly_id rows row h in
    let of_anomaly : is_about anomaly_id row.anomaly_id ≡ true = ground (arith, found.1) in
    (
      record {
        member = found.0;
        named = named;
        anomaly = about ∙ sym (is_about-eq anomaly_id row.anomaly_id of_anomaly);
      },
      ground (arith, found.1),
    )

module _ {N : Type 0} where
  unfoldable pub shared : State N → System
  shared w = record { ledger = w.own.actions_log; bus = w.mq.sent }

module _ {N : Type 0} (T : ActionRow → Type 0) where
  dispatched-Growth :
      (anomaly_id action service : String) (parent rollback_ref : Option String)
      (message : String → RemediationRequest) (w w' : State N) (r : Result ActionDispatched)
      → ((id : String) (at : ℕ)
          → Accounted T w.own.actions_log (
              appended id at
                (some anomaly_id)
                parent
                action
                ActionResult.dispatched
                service
                rollback_ref))
      → ((id : String) (at : ℕ)
          → (id ≡ (message id).action_id)
            × IsOrder (message id).action (message id).anomaly_id (some (message id).service) (
                appended id at
                  (some anomaly_id)
                  parent
                  action
                  ActionResult.dispatched
                  service
                  rollback_ref))
      → Dispatched anomaly_id action service parent rollback_ref message w w' r
      → Growth T (shared w) (shared w')
  unfolding shared
  dispatched-Growth anomaly_id action service parent rollback_ref message w w' _ account order
        (answered at rows out) =
      let (named, o) = order (w.uuid w.made) at in
      ordered _ _ _ _ _ (account (w.uuid w.made) at) named o rows out
  dispatched-Growth anomaly_id action service parent rollback_ref message w w' _ account order
        (unsent at later rows quiet) =
      let row =
        appended (w.uuid w.made) at (some anomaly_id) parent action ActionResult.dispatched service
          rollback_ref in
      let t : System = record { ledger = w.own.actions_log ++ row ∷ []; bus = w.mq.sent } in
      both _ t _ (noted _ t row (account (w.uuid w.made) at) refl refl) (
        noted t _ _
          (undelivered row
            (record {
              member = append_right w.own.actions_log (Memᴰ.head refl);
              named = refl;
              anomaly = refl;
            })
            refl refl)
          rows quiet)

  Approved-Growth :
      (k : Crypto) (token anomaly_id : String) (w : State N) (p : Result ActionDispatched × State N)
      → Approved k token anomaly_id w p
      → Growth T (shared w) (shared p.1)
  unfolding shared
  Approved-Growth k token anomaly_id w _ (Approval.denied code e) = same _ _ refl refl
  Approved-Growth k token anomaly_id w _ (Approval.nameless payload d q) = same _ _ refl refl
  Approved-Growth k token anomaly_id w _ (Approval.approved user row p valid role found d) =
      dispatched-Growth anomaly_id row.action_type (service_of anomaly_id w.own.anomalies)
        (some row.id) none
        (λ id.
          approval_request id anomaly_id (service_of anomaly_id w.own.anomalies) row.action_type)
        (gated k w) p.1 p.0
        (λ id at.
          let (parent, pending) =
            latest-IsParent is_pending anomaly_id w.own.actions_log row _ found refl refl in
          approved row parent (is_pending-eq row.result pending) refl refl refl)
        (λ id at. (
          refl,
          record {
            dispatched = refl;
            action_same = refl;
            anomaly_same = refl;
            target_same = inl refl;
          },
        ))
        d

  Reversed-Growth :
      (k : Crypto) (token anomaly_id : String) (w : State N) (p : Result ActionDispatched × State N)
      → Reversed k token anomaly_id w p
      → Growth T (shared w) (shared p.1)
  unfolding shared
  Reversed-Growth k token anomaly_id w _ (Reversal.denied code e) = same _ _ refl refl
  Reversed-Growth k token anomaly_id w _ (Reversal.nameless payload d q) = same _ _ refl refl
  Reversed-Growth k token anomaly_id w _ (Reversal.reversed user row p valid role found d) =
      dispatched-Growth anomaly_id "rollback" (get_or row.target "") (some row.id) (some row.id)
        (λ id. rollback_request id anomaly_id row.id) (gated k w) p.1 p.0
        (λ id at.
          let (parent, executed) =
            latest-IsParent is_executed anomaly_id w.own.actions_log row _ found refl refl in
          reversed row parent (is_executed-eq row.result executed) refl refl refl refl)
        (λ id at. (
          refl,
          record {
            dispatched = refl;
            action_same = refl;
            anomaly_same = refl;
            target_same = inr refl;
          },
        ))
        d

  -- An approval.
  pub approve_action-Growth :
      (k : Crypto) (token anomaly_id : String) (w : State N)
      → Growth T (shared w) (shared (approve_action k token anomaly_id w).1)
  approve_action-Growth k token anomaly_id w =
      Approved-Growth k token anomaly_id w _ (approve_action-Approved k token anomaly_id w)

  -- A rollback that is asked for.
  pub rollback_action-Growth :
      (k : Crypto) (token anomaly_id : String) (w : State N)
      → Growth T (shared w) (shared (rollback_action k token anomaly_id w).1)
  rollback_action-Growth k token anomaly_id w =
      Reversed-Growth k token anomaly_id w _ (rollback_action-Reversed k token anomaly_id w)
