-- ===== src/Bff/Actions/Approval.antt =====
-- What an approval leaves: the ledger and the bus agree.
use hypertrace.Prelude.{
  ℕ, ◌+◌, String, ◌≡◌, ◌⊎◌, inl, inr, refl, Option, none, some, Option-cases, [], ◌∷◌, ◌++◌,
}
use hypertrace.Messaging
use hypertrace.Messaging.{Outcome, Client, routing_key_remediation}
use hypertrace.Messaging.Publish.{Delivered, publish-Delivered}
use hypertrace.Effects.{Result, ok, err, http_error, key_error}
use hypertrace.Schemas.{RemediationRequest}
use hypertrace.Tables.{ActionRow, ActionResult}
use hypertrace.Bff.Auth.{Crypto, require_sre, Claims, Payload, claims_of, user_of}
use hypertrace.Bff.Auth.Access.{Gate, refused, unnamed, passed, gated, require_sre-Gate}
use hypertrace.Bff.Actions.{
  State, after_publish, ActionDispatched, latest, is_pending, appended, append_action,
  publish_or_fail, dispatch_failure, service_of, approval_request, approve, approve_gated,
  approve_action,
}

module _ {N : Type 0} where
  -- A dispatch by the endpoint that was answered: the row that says `dispatched` is the only new one,
  -- and the request that names it is the only message. Or one that was refused with 503: nothing was
  -- sent, and the row is followed by one that points back at it and says that it failed.
  pub data Dispatched (anomaly_id action service : String) (parent rollback_ref : Option String)
      (message : String → RemediationRequest) (w w' : State N)
      : Result ActionDispatched → Type 0 where
    answered :
        (at : ℕ)
        → w'.own.actions_log
          ≡ w.own.actions_log
            ++ appended
                (w.uuid w.made)
                at
                (some anomaly_id)
                parent
                action
                ActionResult.dispatched
                service
                rollback_ref
              ∷ []
        → w'.mq.sent ≡ w.mq.sent ++ (routing_key_remediation, message (w.uuid w.made)) ∷ []
        → Dispatched anomaly_id action service parent rollback_ref message w w'
            (ok (record { action_id = w.uuid w.made; status = "dispatched" }))
    unsent :
        (at later : ℕ)
        → w'.own.actions_log
          ≡ (w.own.actions_log
              ++ appended
                  (w.uuid w.made)
                  at
                  (some anomaly_id)
                  parent
                  action
                  ActionResult.dispatched
                  service
                  rollback_ref
                ∷ [])
            ++ appended
                (w'.uuid (w.made + 1))
                later
                (some anomaly_id)
                (some (w.uuid w.made))
                action
                ActionResult.dispatch_failed
                service
                none
              ∷ []
        → w'.mq.sent ≡ w.mq.sent
        → Dispatched anomaly_id action service parent rollback_ref message w w'
            (err (http_error 503))

  -- The rest of an endpoint from its publish on.
  abbrev pub conclude :
      String
      → String
      → String
      → RemediationRequest
      → State N
      → Outcome (Unit {0}) × Client RemediationRequest
      → Result ActionDispatched × State N
  conclude id service action message w p =
      let (r, w') = after_publish id service action message w p in
      elim r [
        | ok _ ↦ (ok (record { action_id = id; status = "dispatched" }), w')
        | err e ↦ (err e, w')
      ]

  -- The world in which an endpoint publishes: its row is in the ledger.
  abbrev pub entered : String → String → String → Option String → Option String → State N → State N
  entered anomaly_id action service parent rollback_ref w =
      (append_action (some anomaly_id) parent action ActionResult.dispatched service rollback_ref
        w).1

  pub conclude-Dispatched :
      (anomaly_id action service : String) (parent rollback_ref : Option String)
      (message : String → RemediationRequest) (w : State N)
      (p : Outcome (Unit {0}) × Client RemediationRequest)
      → (message (w.uuid w.made)).anomaly_id ≡ some anomaly_id
      → Delivered routing_key_remediation (message (w.uuid w.made)) w.mq p
      → let (r, w') =
          conclude
            (w.uuid w.made)
            service
            action
            (message (w.uuid w.made))
            (entered anomaly_id action service parent rollback_ref w)
            p in
        Dispatched anomaly_id action service parent rollback_ref message w w' r
  unfolding after_publish append_action dispatch_failure
  conclude-Dispatched anomaly_id action service parent rollback_ref message w (Messaging.ok _, c) e
        d =
      answered (w.clock w.reads) refl d
  conclude-Dispatched anomaly_id action service parent rollback_ref message w
        (Messaging.raised _, c) e d =
      unsent (w.clock w.reads) (w.clock (w.reads + 1)) (rw e refl) d

  -- An approval of a row that is pending always ends in one of the two.
  pub approve-Dispatched :
      (anomaly_id : String) (row : ActionRow) (w : State N)
      → Dispatched anomaly_id row.action_type
          (service_of anomaly_id w.own.anomalies)
          (some row.id)
          none
          (λ id.
            approval_request id anomaly_id (service_of anomaly_id w.own.anomalies) row.action_type)
          w
          (approve anomaly_id row w).1
          (approve anomaly_id row w).0
  unfolding approve append_action publish_or_fail
  approve-Dispatched anomaly_id row w =
      let service = service_of anomaly_id w.own.anomalies in
      let message : String → RemediationRequest =
        λ id. approval_request id anomaly_id service row.action_type in
      conclude-Dispatched anomaly_id row.action_type service (some row.id) none message w
        (Messaging.publish routing_key_remediation (message (w.uuid w.made)) w.mq) refl
        (publish-Delivered routing_key_remediation (message (w.uuid w.made)) w.mq)

  -- How an approval ends. A caller that the gate refuses, or an anomaly with nothing pending, gets an
  -- error, and neither the ledger nor the bus has changed.
  pub data Approved (k : Crypto) (token anomaly_id : String) (w : State N)
      : Result ActionDispatched × State N → Type 0 where
    denied :
        (code : ℕ)
        → (code ≡ 401) ⊎ (code ≡ 403) ⊎ (code ≡ 404)
        → Approved k token anomaly_id w (err (http_error code), gated k w)
    nameless :
        (payload : Payload)
        → k.decode (w.clock w.reads) token ≡ some payload
        → claims_of payload ≡ none
        → Approved k token anomaly_id w (err key_error, gated k w)
    approved :
        (user : Claims) (row : ActionRow) (p : Result ActionDispatched × State N)
        → user_of k (w.clock w.reads) token ≡ some user
        → user.role ≡ "sre"
        → latest is_pending anomaly_id w.own.actions_log ≡ some row
        → Dispatched anomaly_id row.action_type
            (service_of anomaly_id w.own.anomalies)
            (some row.id)
            none
            (λ id.
              approval_request id anomaly_id
                (service_of anomaly_id w.own.anomalies)
                row.action_type)
            (gated k w)
            p.1
            p.0
        → Approved k token anomaly_id w p

  approve_gated-Approved :
      (k : Crypto) (token anomaly_id : String) (w : State N) (g : Result Claims × State N)
      → Gate k token w g
      → Approved k token anomaly_id w
          (elim g.0 [ ok _ ↦ approve_gated anomaly_id g.1 | err e ↦ (err e, g.1) ])
  unfolding approve_gated
  approve_gated-Approved k token anomaly_id w _ (refused code e) =
      denied code (elim e [ inl a ↦ inl a | inr b ↦ inr (inl b) ])
  approve_gated-Approved k token anomaly_id w _ (unnamed payload d q) = nameless payload d q
  approve_gated-Approved k token anomaly_id w _ (passed user valid role) =
      elim (Option-cases (latest is_pending anomaly_id w.own.actions_log)) [
        | inl e ↦ rw e (denied 404 (inr (inr refl)))
        | inr (row, e) ↦ rw e (
            approved user row (approve anomaly_id row (gated k w)) valid role e
              (approve-Dispatched anomaly_id row (gated k w)))
      ]

  -- An approval is refused with 401, 403 or 404, or fails for a valid token whose payload lacks a
  -- key, with the ledger and the bus as they were; or the
  -- token carries the role `sre`, and the ledger gains a `dispatched` row for the latest pending row
  -- of the anomaly: then either its one request was delivered and the call is answered, or nothing
  -- was sent, a `dispatch_failed` row follows, and the call ends with 503.
  pub approve_action-Approved :
      (k : Crypto) (token anomaly_id : String) (w : State N)
      → Approved k token anomaly_id w (approve_action k token anomaly_id w)
  unfolding approve_action
  approve_action-Approved k token anomaly_id w =
      approve_gated-Approved k token anomaly_id w (require_sre k token w)
        (require_sre-Gate k token w)
