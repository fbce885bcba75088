-- ===== src/Executor/Handler/Safety.antt =====
-- The gates of the executor: what it needs to touch the cluster, and the row that it always appends.
use hypertrace.Prelude.{
  ℕ, ◌+◌, ◌<◌, String, ◌≡◌, ◌≢◌, ◌⊎◌, inl, inr, refl, Bool, true, false, Option, none, some, List,
  [], ◌∷◌, ◌++◌, count_if, str_eq, eq_iff, arith, Bool-cases, ltb,
}
use hypertrace.Effects.{World, Result, ok, err}
use hypertrace.Schemas.{RemediationRequest}
use hypertrace.Tables.{ActionRow, ActionResult, PriorState}
use hypertrace.Executor.Cluster.{Kubernetes}
use hypertrace.Executor.Service.{is_protected}
use hypertrace.Executor.Actions.{Outcome, Change, throttle, freeze_scaling, rollback}
use hypertrace.Executor.Actions.Reported.{
  is_outcome, IsReported, throttle-IsReported, freeze_scaling-IsReported, rollback-IsReported,
}
use hypertrace.Executor.Limits.{
  Ceiling, rate_limit_exceeded, rate_limit_below, counts_globally, counts_for,
  max_actions_per_window, max_actions_per_service,
}
use hypertrace.Executor.Handler.{
  Executor, Details, record_outcome, describing, referring, no_details, blocked_by, outcome_row,
  load_action, settle, roll_back_unless, roll_back_before, roll_back_from, roll_back,
  roll_back_request, carry_out, perform, perform_below, remediate, handle,
}

-- The time is past a deadline that is set.
abbrev pub is_past : ℕ → Option ℕ → Bool
is_past t none = false
is_past t (some deadline) = ltb deadline t

module _ (K : Kubernetes) where
  abbrev pub State : Type 0
  State = World (Unit {0}) (Executor K)

  -- What a call leaves in the ledger: one row that answers for the request if it returns, with the
  -- result of an outcome, and nothing if it raises.
  abbrev pub Recorded : RemediationRequest → State → Result (Unit {0}) × State → Type 0
  Recorded m w (err _, w') = w'.own.actions_log ≡ w.own.actions_log
  Recorded m w (ok _, w') =
      (at : ℕ) × (result : ActionResult) × (d : Details) × (is_outcome result ≡ true)
      × (w'.own.actions_log ≡ w.own.actions_log ++ outcome_row (w.uuid w.made) at m result d ∷ [])

  record_outcome-Recorded :
      (m : RemediationRequest) (result : ActionResult) (d : Details) (w w0 : State)
      → w.own.actions_log ≡ w0.own.actions_log
      → w.uuid w.made ≡ w0.uuid w0.made
      → is_outcome result ≡ true
      → Recorded m w0 (record_outcome K m result d w)
  record_outcome-Recorded m result d w w0 e u h = (w.clock w.reads, result, d, h, ground arith)

  settle-Recorded :
      (m : RemediationRequest) (d : Outcome → Details) (r : Change K) (w w0 : State)
      → w.own.actions_log ≡ w0.own.actions_log
      → w.uuid w.made ≡ w0.uuid w0.made
      → IsReported K r
      → Recorded m w0 (settle K m d r w)
  unfolding settle
  settle-Recorded m d (ok (o, c)) w w0 e u h =
      record_outcome-Recorded m o.status (d o) (record w { own = record w.own { cluster = c } }) w0
        e u h
  settle-Recorded m d (err x) w w0 e u h = e

  roll_back_unless-Recorded :
      (expired : Bool) (m : RemediationRequest) (target : ActionRow) (prior : PriorState)
      (w w0 : State)
      → w.own.actions_log ≡ w0.own.actions_log
      → w.uuid w.made ≡ w0.uuid w0.made
      → Recorded m w0 (roll_back_unless K expired m target prior w)
  unfolding roll_back_unless
  roll_back_unless-Recorded true m target prior w w0 e u =
      record_outcome-Recorded m ActionResult.rollback_window_expired (referring K target) w w0 e u
        refl
  roll_back_unless-Recorded false m target prior w w0 e u =
      settle-Recorded m (λ _. referring K target) (rollback K w.own.cluster prior) w w0 e u
        (rollback-IsReported K w.own.cluster prior)

  roll_back_before-Recorded :
      (m : RemediationRequest) (target : ActionRow) (prior : PriorState) (deadline : Option ℕ)
      (w : State)
      → Recorded m w (roll_back_before K m target prior deadline w)
  unfolding roll_back_before
  roll_back_before-Recorded m target prior none w =
      roll_back_unless-Recorded false m target prior w w refl refl
  roll_back_before-Recorded m target prior (some deadline) w =
      roll_back_unless-Recorded (ltb deadline (w.clock w.reads)) m target prior
        (record w { reads = w.reads + 1 }) w refl refl

  roll_back_from-Recorded :
      (m : RemediationRequest) (target : ActionRow) (prior : Option PriorState) (w : State)
      → Recorded m w (roll_back_from K m target prior w)
  unfolding roll_back_from
  roll_back_from-Recorded m target none w =
      record_outcome-Recorded m ActionResult.rollback_failed_no_reference no_details w w refl refl
        refl
  roll_back_from-Recorded m target (some prior) w =
      roll_back_before-Recorded m target prior target.rollback_deadline w

  roll_back-Recorded :
      (m : RemediationRequest) (target : Option ActionRow) (w : State)
      → Recorded m w (roll_back K m target w)
  unfolding roll_back
  roll_back-Recorded m none w =
      record_outcome-Recorded m ActionResult.rollback_failed_no_reference no_details w w refl refl
        refl
  roll_back-Recorded m (some target) w = roll_back_from-Recorded m target target.prior_state w

  carry_out-Recorded :
      (m : RemediationRequest) (change : K.Cluster → Change K) (w w0 : State)
      → w.own.actions_log ≡ w0.own.actions_log
      → w.uuid w.made ≡ w0.uuid w0.made
      → IsReported K (change w.own.cluster)
      → Recorded m w0 (carry_out K m change w)
  unfolding carry_out
  carry_out-Recorded m change w w0 e u h =
      settle-Recorded m (describing K) (change w.own.cluster) w w0 e u h

  perform-Recorded :
      (m : RemediationRequest) (w w0 : State)
      → w.own.actions_log ≡ w0.own.actions_log
      → w.uuid w.made ≡ w0.uuid w0.made
      → Recorded m w0 (perform K m w)
  unfolding perform
  perform-Recorded m w w0 e u = elim (Bool-cases (str_eq m.action "throttle")) [
    | inl q ↦ rw q (
        carry_out-Recorded m (λ c. throttle K c m.service) w w0 e u
          (throttle-IsReported K w.own.cluster m.service))
    | inr q ↦ rw q (elim (Bool-cases (str_eq m.action "freeze_scaling")) [
      | inl r ↦ rw r (
          carry_out-Recorded m (λ c. freeze_scaling K c m.service) w w0 e u
            (freeze_scaling-IsReported K w.own.cluster m.service))
      | inr r ↦ rw r (
          record_outcome-Recorded m (ActionResult.unsupported_action m.action) no_details w w0 e u
            refl)
    ])
  ]

  blocked_by-outcome : (limit : Ceiling) → is_outcome (blocked_by limit) ≡ true
  blocked_by-outcome Ceiling.global = refl
  blocked_by-outcome Ceiling.per_service = refl

  perform_below-Recorded :
      (m : RemediationRequest) (limit : Option Ceiling) (w w0 : State)
      → w.own.actions_log ≡ w0.own.actions_log
      → w.uuid w.made ≡ w0.uuid w0.made
      → Recorded m w0 (perform_below K m limit w)
  unfolding perform_below
  perform_below-Recorded m none w w0 e u = perform-Recorded m w w0 e u
  perform_below-Recorded m (some limit) w w0 e u =
      record_outcome-Recorded m (blocked_by limit) no_details w w0 e u (blocked_by-outcome limit)

  remediate-Recorded :
      (prefixes : List String) (m : RemediationRequest) (w : State)
      → Recorded m w (remediate K prefixes m w)
  unfolding remediate
  remediate-Recorded prefixes m w =
      let w1 : State = record w { reads = w.reads + 1 } in
      elim (Bool-cases (is_protected m.service prefixes)) [
        | inl q ↦ rw q (
            record_outcome-Recorded m ActionResult.blocked_by_protected_floor no_details w w refl
              refl refl)
        | inr q ↦ rw q (
            perform_below-Recorded m
              (rate_limit_exceeded (w.clock w.reads) m.service w.own.actions_log) w1 w refl refl)
      ]

  roll_back_request-Recorded :
      (m : RemediationRequest) (id : Option String) (w : State)
      → Recorded m w (roll_back_request K m id w)
  unfolding roll_back_request
  roll_back_request-Recorded m none w = refl
  roll_back_request-Recorded m (some id) w =
      roll_back-Recorded m (load_action id w.own.actions_log) w

  -- Every request that is handled without an exception appends exactly one row, which answers for
  -- the decision that the request names, with its action, service and mode, and with a result that
  -- is neither a decision nor a dispatch; a request whose handling raises appends none.
  pub handle-Recorded :
      (prefixes : List String) (m : RemediationRequest) (w : State)
      → Recorded m w (handle K prefixes m w)
  unfolding handle
  handle-Recorded prefixes m w = elim (Bool-cases (str_eq m.action "rollback")) [
    | inl q ↦ rw q (roll_back_request-Recorded m m.target_action_id w)
    | inr q ↦ rw q (remediate-Recorded prefixes m w)
  ]

  -- A request other than a rollback touches the cluster only for an unprotected service and while
  -- both counts of executed actions are below their ceilings, and only as a throttle or a freeze.
  pub remediate_gates :
      (prefixes : List String) (m : RemediationRequest) (w : State)
      → (remediate K prefixes m w).1.own.cluster ≢ w.own.cluster
      → (is_protected m.service prefixes ≡ false)
        × (count_if (counts_globally (w.clock w.reads)) w.own.actions_log < max_actions_per_window)
        × (count_if (counts_for (w.clock w.reads) m.service) w.own.actions_log
            < max_actions_per_service)
        × ((m.action ≡ "throttle") ⊎ (m.action ≡ "freeze_scaling"))
  unfolding remediate perform_below perform carry_out settle
  remediate_gates prefixes m w h = ground (
    arith,
    rate_limit_below (w.clock w.reads) m.service w.own.actions_log,
    eq_iff m.action "throttle",
    eq_iff m.action "freeze_scaling",
  )
