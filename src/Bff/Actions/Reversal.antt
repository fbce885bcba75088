-- ===== src/Bff/Actions/Reversal.antt =====
-- What a rollback that was asked for leaves: the ledger and the bus agree.
use hypertrace.Prelude.{ℕ, String, ◌≡◌, ◌⊎◌, inl, inr, refl, none, some, get_or, Option-cases}
use hypertrace.Messaging
use hypertrace.Messaging.{routing_key_remediation}
use hypertrace.Messaging.Publish.{publish-Delivered}
use hypertrace.Effects.{Result, ok, err, http_error, key_error}
use hypertrace.Schemas.{RemediationRequest}
use hypertrace.Tables.{ActionRow}
use hypertrace.Bff.Auth.{Crypto, require_sre, Claims, Payload, claims_of, user_of}
use hypertrace.Bff.Auth.Access.{Gate, refused, unnamed, passed, gated, require_sre-Gate}
use hypertrace.Bff.Actions.{
  State, ActionDispatched, latest, is_executed, append_action, publish_or_fail, rollback_request,
  roll_back, roll_back_gated, rollback_action,
}
use hypertrace.Bff.Actions.Approval.{Dispatched, conclude-Dispatched}

module _ {N : Type 0} where
  pub roll_back-Dispatched :
      (anomaly_id : String) (row : ActionRow) (w : State N)
      → Dispatched anomaly_id "rollback"
          (get_or row.target "")
          (some row.id)
          (some row.id)
          (λ id. rollback_request id anomaly_id row.id)
          w
          (roll_back anomaly_id row w).1
          (roll_back anomaly_id row w).0
  unfolding roll_back append_action publish_or_fail
  roll_back-Dispatched anomaly_id row w =
      let message : String → RemediationRequest = λ id. rollback_request id anomaly_id row.id in
      conclude-Dispatched anomaly_id "rollback" (get_or row.target "") (some row.id) (some row.id)
        message w (Messaging.publish routing_key_remediation (message (w.uuid w.made)) w.mq) refl
        (publish-Delivered routing_key_remediation (message (w.uuid w.made)) w.mq)

  -- How a rollback that was asked for ends.
  pub data Reversed (k : Crypto) (token anomaly_id : String) (w : State N)
      : Result ActionDispatched × State N → Type 0 where
    denied :
        (code : ℕ)
        → (code ≡ 401) ⊎ (code ≡ 403) ⊎ (code ≡ 404)
        → Reversed k token anomaly_id w (err (http_error code), gated k w)
    nameless :
        (payload : Payload)
        → k.decode (w.clock w.reads) token ≡ some payload
        → claims_of payload ≡ none
        → Reversed k token anomaly_id w (err key_error, gated k w)
    reversed :
        (user : Claims) (row : ActionRow) (p : Result ActionDispatched × State N)
        → user_of k (w.clock w.reads) token ≡ some user
        → user.role ≡ "sre"
        → latest is_executed anomaly_id w.own.actions_log ≡ some row
        → Dispatched anomaly_id "rollback"
            (get_or row.target "")
            (some row.id)
            (some row.id)
            (λ id. rollback_request id anomaly_id row.id)
            (gated k w)
            p.1
            p.0
        → Reversed k token anomaly_id w p

  roll_back_gated-Reversed :
      (k : Crypto) (token anomaly_id : String) (w : State N) (g : Result Claims × State N)
      → Gate k token w g
      → Reversed k token anomaly_id w
          (elim g.0 [ ok _ ↦ roll_back_gated anomaly_id g.1 | err e ↦ (err e, g.1) ])
  unfolding roll_back_gated
  roll_back_gated-Reversed k token anomaly_id w _ (refused code e) =
      denied code (elim e [ inl a ↦ inl a | inr b ↦ inr (inl b) ])
  roll_back_gated-Reversed k token anomaly_id w _ (unnamed payload d q) = nameless payload d q
  roll_back_gated-Reversed k token anomaly_id w _ (passed user valid role) =
      elim (Option-cases (latest is_executed anomaly_id w.own.actions_log)) [
        | inl e ↦ rw e (denied 404 (inr (inr refl)))
        | inr (row, e) ↦ rw e (
            reversed user row (roll_back anomaly_id row (gated k w)) valid role e
              (roll_back-Dispatched anomaly_id row (gated k w)))
      ]

  -- A rollback is refused with 401, 403 or 404, or fails for a valid token whose payload lacks a
  -- key, with the ledger and the bus as they were; or the
  -- token carries the role `sre`, and the ledger gains a row that points back at the latest executed
  -- row of the anomaly: then either one request with that row as its target, an empty service and no
  -- mode was delivered and the call is answered, or nothing was sent, a `dispatch_failed` row follows,
  -- and the call ends with 503.
  pub rollback_action-Reversed :
      (k : Crypto) (token anomaly_id : String) (w : State N)
      → Reversed k token anomaly_id w (rollback_action k token anomaly_id w)
  unfolding rollback_action
  rollback_action-Reversed k token anomaly_id w =
      roll_back_gated-Reversed k token anomaly_id w (require_sre k token w)
        (require_sre-Gate k token w)
