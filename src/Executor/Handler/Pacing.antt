-- ===== src/Executor/Handler/Pacing.antt =====
-- The ceilings as an invariant of the ledger over runs of the executor, between whose requests the
-- other services append rows of their own.
pub mod Runs
use hypertrace.Prelude.{
  ℕ, ◌+◌, ◌≤◌, ◌<◌, String, ◌≡◌, ◌≢◌, ◌⊎◌, inl, inr, refl, ap, ◌∙◌, Bool, true, false, ◌&&◌, Option,
  none, some, List, [], ◌∷◌, ◌++◌, count_if, count_if_mono, count_if-append, str_eq, eq_iff, arith,
  Option-cases, Bool-cases, ltb, leb,
}
use hypertrace.Effects.{World, Result, ok, err, minutes}
use hypertrace.Schemas.{RemediationRequest}
use hypertrace.Tables.{ActionRow, ActionResult, PriorState}
use hypertrace.Executor.Cluster.{Kubernetes}
use hypertrace.Executor.Service.{is_protected}
use hypertrace.Executor.Actions.{Outcome, Change, throttle, freeze_scaling, rollback}
use hypertrace.Executor.Limits.{
  Ceiling, rate_limit_exceeded, rate_limit_below, counts_globally, counts_for, targets,
  max_actions_per_window, max_actions_per_service, rate_limit_window_minutes,
  service_rate_limit_window_minutes,
}
use hypertrace.Executor.Handler.{
  Executor, Details, record_outcome, describing, referring, no_details, blocked_by, outcome_row,
  load_action, settle, roll_back_unless, roll_back_before, roll_back_from, roll_back,
  roll_back_request, carry_out, perform, perform_below, remediate, handle, is_status_executed,
}
use hypertrace.Executor.Handler.Safety.{State}

-- How a ledger may grow: not at all, by a row that executed nothing, or by one that did while both
-- counts, taken at its own time, were below their ceilings.
pub data Grown (log : List ActionRow) : List ActionRow → Type 0 where
  same : (log' : List ActionRow) → log' ≡ log → Grown log log'
  noted :
      (log' : List ActionRow) (row : ActionRow)
      → is_status_executed row.result ≡ false
      → log' ≡ log ++ row ∷ []
      → Grown log log'
  acted :
      (log' : List ActionRow) (row : ActionRow) (service : String)
      → row.target ≡ some service
      → count_if (counts_globally row.executed_at) log < max_actions_per_window
      → count_if (counts_for row.executed_at service) log < max_actions_per_service
      → log' ≡ log ++ row ∷ []
      → Grown log log'

-- Both counts are below their ceilings at a time.
abbrev Below : ℕ → String → List ActionRow → Type 0
Below t service log =
    (count_if (counts_globally t) log < max_actions_per_window)
    × (count_if (counts_for t service) log < max_actions_per_service)

-- They are so later too.
later-Below :
    (t t' : ℕ) (service : String) (log : List ActionRow)
    → t ≤ t'
    → Below t service log
    → Below t' service log
later-Below t t' service log h (a, b) =
    let fewer =
      count_if_mono (counts_globally t') (counts_globally t) log (λ row e. ground arith) in
    let fewer_for =
      count_if_mono (counts_for t' service) (counts_for t service) log (λ row e. ground arith) in
    (omega (arith, fewer), omega (arith, fewer_for))

module _ (K : Kubernetes) where
  -- An outcome of a change is recorded while both counts are below their ceilings.
  settle-Grown :
      (m : RemediationRequest) (d : Outcome → Details) (r : Change K) (w : State K)
      → Below (w.clock w.reads) m.service w.own.actions_log
      → Grown w.own.actions_log (settle K m d r w).1.own.actions_log
  unfolding settle
  settle-Grown m d (ok (o, c)) w (a, b) =
      acted _ (outcome_row (w.uuid w.made) (w.clock w.reads) m o.status (d o)) m.service refl a b
        refl
  settle-Grown m d (err e) w h = same _ refl

  record_outcome-Grown :
      (m : RemediationRequest) (result : ActionResult) (d : Details) (w : State K)
      → is_status_executed result ≡ false
      → Grown w.own.actions_log (record_outcome K m result d w).1.own.actions_log
  record_outcome-Grown m result d w h =
      noted _ (outcome_row (w.uuid w.made) (w.clock w.reads) m result d) h refl

  perform-Grown :
      (m : RemediationRequest) (w : State K)
      → Below (w.clock w.reads) m.service w.own.actions_log
      → Grown w.own.actions_log (perform K m w).1.own.actions_log
  unfolding perform carry_out
  perform-Grown m w h = elim (Bool-cases (str_eq m.action "throttle")) [
    | inl q ↦ rw q (settle-Grown m (describing K) (throttle K w.own.cluster m.service) w h)
    | inr q ↦ rw q (elim (Bool-cases (str_eq m.action "freeze_scaling")) [
      | inl r ↦ rw r (settle-Grown m (describing K) (freeze_scaling K w.own.cluster m.service) w h)
      | inr r ↦
          rw r (record_outcome-Grown m (ActionResult.unsupported_action m.action) no_details w refl)
    ])
  ]

  perform_below-Grown :
      (m : RemediationRequest) (t : ℕ) (limit : Option Ceiling) (w : State K)
      → t ≤ w.clock w.reads
      → rate_limit_exceeded t m.service w.own.actions_log ≡ limit
      → Grown w.own.actions_log (perform_below K m limit w).1.own.actions_log
  unfolding perform_below
  perform_below-Grown m t none w later e = perform-Grown m w (
      later-Below t (w.clock w.reads) m.service w.own.actions_log later
        (rate_limit_below t m.service w.own.actions_log e))
  perform_below-Grown m t (some Ceiling.global) w later e =
      record_outcome-Grown m ActionResult.blocked_by_global_rate_limit no_details w refl
  perform_below-Grown m t (some Ceiling.per_service) w later e =
      record_outcome-Grown m ActionResult.blocked_by_per_service_rate_limit no_details w refl

  remediate-Grown :
      (prefixes : List String) (m : RemediationRequest) (w : State K)
      → w.clock w.reads ≤ w.clock (w.reads + 1)
      → Grown w.own.actions_log (remediate K prefixes m w).1.own.actions_log
  unfolding remediate
  remediate-Grown prefixes m w later = elim (Bool-cases (is_protected m.service prefixes)) [
    | inl q ↦
        rw q (record_outcome-Grown m ActionResult.blocked_by_protected_floor no_details w refl)
    | inr q ↦ rw q (
        perform_below-Grown m (w.clock w.reads)
          (rate_limit_exceeded (w.clock w.reads) m.service w.own.actions_log)
          (record w { reads = w.reads + 1 }) later refl)
  ]

  -- A rollback never records that it executed.
  rollback-not_executed :
      (c c' : K.Cluster) (prior : PriorState) (o : Outcome)
      → rollback K c prior ≡ ok (o, c')
      → is_status_executed o.status ≡ false
  unfolding rollback
  rollback-not_executed c c' prior o h = ground arith

  roll_back_settled :
      (m : RemediationRequest) (target : ActionRow) (prior : PriorState) (r : Change K)
      (w : State K)
      → rollback K w.own.cluster prior ≡ r
      → Grown w.own.actions_log (settle K m (λ _. referring K target) r w).1.own.actions_log
  unfolding settle
  roll_back_settled m target prior (ok (o, c)) w h =
      noted _ (outcome_row (w.uuid w.made) (w.clock w.reads) m o.status (referring K target))
        (rollback-not_executed w.own.cluster c prior o h) refl
  roll_back_settled m target prior (err e) w h = same _ refl

  roll_back_unless-Grown :
      (expired : Bool) (m : RemediationRequest) (target : ActionRow) (prior : PriorState)
      (w : State K)
      → Grown w.own.actions_log (roll_back_unless K expired m target prior w).1.own.actions_log
  unfolding roll_back_unless
  roll_back_unless-Grown true m target prior w =
      record_outcome-Grown m ActionResult.rollback_window_expired (referring K target) w refl
  roll_back_unless-Grown false m target prior w =
      roll_back_settled m target prior (rollback K w.own.cluster prior) w refl

  roll_back_before-Grown :
      (m : RemediationRequest) (target : ActionRow) (prior : PriorState) (deadline : Option ℕ)
      (w : State K)
      → Grown w.own.actions_log (roll_back_before K m target prior deadline w).1.own.actions_log
  unfolding roll_back_before
  roll_back_before-Grown m target prior none w = roll_back_unless-Grown false m target prior w
  roll_back_before-Grown m target prior (some deadline) w =
      roll_back_unless-Grown (ltb deadline (w.clock w.reads)) m target prior
        (record w { reads = w.reads + 1 })

  roll_back_from-Grown :
      (m : RemediationRequest) (target : ActionRow) (prior : Option PriorState) (w : State K)
      → Grown w.own.actions_log (roll_back_from K m target prior w).1.own.actions_log
  unfolding roll_back_from
  roll_back_from-Grown m target none w =
      record_outcome-Grown m ActionResult.rollback_failed_no_reference no_details w refl
  roll_back_from-Grown m target (some prior) w =
      roll_back_before-Grown m target prior target.rollback_deadline w

  roll_back-Grown :
      (m : RemediationRequest) (target : Option ActionRow) (w : State K)
      → Grown w.own.actions_log (roll_back K m target w).1.own.actions_log
  unfolding roll_back
  roll_back-Grown m none w =
      record_outcome-Grown m ActionResult.rollback_failed_no_reference no_details w refl
  roll_back-Grown m (some target) w = roll_back_from-Grown m target target.prior_state w

  roll_back_request-Grown :
      (m : RemediationRequest) (id : Option String) (w : State K)
      → Grown w.own.actions_log (roll_back_request K m id w).1.own.actions_log
  unfolding roll_back_request
  roll_back_request-Grown m none w = same _ refl
  roll_back_request-Grown m (some id) w = roll_back-Grown m (load_action id w.own.actions_log) w

  pub handle-Grown :
      (prefixes : List String) (m : RemediationRequest) (w : State K)
      → w.clock w.reads ≤ w.clock (w.reads + 1)
      → Grown w.own.actions_log (handle K prefixes m w).1.own.actions_log
  unfolding handle
  handle-Grown prefixes m w later = elim (Bool-cases (str_eq m.action "rollback")) [
    | inl q ↦ rw q (roll_back_request-Grown m m.target_action_id w)
    | inr q ↦ rw q (remediate-Grown prefixes m w later)
  ]

  -- No handling changes what the clock will show.
  pub handle-clock :
      (prefixes : List String) (m : RemediationRequest) (w : State K)
      → (handle K prefixes m w).1.clock ≡ w.clock
  unfolding handle roll_back_request roll_back roll_back_from roll_back_before roll_back_unless
      remediate perform_below perform carry_out settle
  handle-clock prefixes m w = ground arith
