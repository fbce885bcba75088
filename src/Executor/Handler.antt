-- ===== src/Executor/Handler.antt =====
-- `_record`, `_load_action` and `handle` of services/remediation-executor/app/main.py.
pub mod Pacing
pub mod Safety
pub mod Gates
use hypertrace.Prelude.{
  ℕ, ◌+◌, String, Bool, true, false, Option, none, some, List, [], ◌∷◌, ◌++◌, ltb, str_eq, get_or,
  if◌then◌else◌,
}
use hypertrace.Effects.{
  World, Result, ok, err, Exec, pure, gets, raise, modify, now, uuid4, minutes, key_error, ◌>>=◌,
  ◌>>◌,
}
use hypertrace.Schemas.{Mode, RemediationRequest, RemediationAction, action_value}
use hypertrace.Tables.{ActionRow, ActionResult, PriorState}
use hypertrace.Executor.Cluster.{Kubernetes}
use hypertrace.Executor.Service.{is_protected}
use hypertrace.Executor.Actions.{Outcome, Change, throttle, freeze_scaling, rollback}
use hypertrace.Executor.Limits.{Ceiling, rate_limit_exceeded, rollback_window_minutes}

-- The ledger and the cluster that the executor works on.
pub record Executor (K : Kubernetes) : Type 0 where
  pub actions_log : List ActionRow
  pub cluster : K.Cluster

-- The executor publishes nothing.
abbrev pub Action : Kubernetes → Type 0 → Type 0
Action K A = Exec (Unit {0}) (Executor K) A

-- The optional arguments of `_record`.
pub record Details : Type 0 where
  pub prior_state : Option PriorState
  pub applied_state : Option String
  pub rollback_ref : Option String
  pub set_rollback_deadline : Bool

abbrev pub no_details : Details
no_details = record {
  prior_state = none;
  applied_state = none;
  rollback_ref = none;
  set_rollback_deadline = false;
}

-- `message.get("mode", "autonomous")`
abbrev pub mode_of : RemediationRequest → Mode
mode_of m = get_or m.mode Mode.autonomous

-- The row that `_record` inserts for a request.
abbrev pub outcome_row : String → ℕ → RemediationRequest → ActionResult → Details → ActionRow
outcome_row id at m result d = record {
  id = id;
  anomaly_id = m.anomaly_id;
  parent_action_id = some m.action_id;
  rollback_ref = d.rollback_ref;
  action_type = m.action;
  mode = mode_of m;
  executed_at = at;
  result = result;
  target = some m.service;
  prior_state = d.prior_state;
  applied_state = d.applied_state;
  rollback_deadline =
      if d.set_rollback_deadline then some (at + minutes rollback_window_minutes) else none;
}

-- `_load_action`
unfoldable pub load_action : String → List ActionRow → Option ActionRow
load_action id [] = none
load_action id (row ∷ rows) = if str_eq row.id id then some row else load_action id rows

abbrev pub blocked_by : Ceiling → ActionResult
blocked_by Ceiling.global = ActionResult.blocked_by_global_rate_limit
blocked_by Ceiling.per_service = ActionResult.blocked_by_per_service_rate_limit

abbrev pub is_status_executed : ActionResult → Bool
is_status_executed ActionResult.executed = true
is_status_executed _ = false

module _ (K : Kubernetes) where
  abbrev pub record_outcome : RemediationRequest → ActionResult → Details → Action K (Unit {0})
  record_outcome m result d = do
    at ← now
    id ← uuid4
    modify (λ s. record s { actions_log = s.actions_log ++ outcome_row id at m result d ∷ [] })

  -- What follows a call of the Kubernetes API: the outcome is recorded beside the cluster that the
  -- call left; an exception of the API leaves the handler.
  unfoldable pub settle : RemediationRequest → (Outcome → Details) → Change K → Action K (Unit {0})
  settle m details (ok (o, c)) w =
      record_outcome m o.status (details o) (record w { own = record w.own { cluster = c } })
  settle m details (err e) w = (err e, w)

  abbrev pub referring : ActionRow → Details
  referring target = record no_details { rollback_ref = some target.id }

  -- The rollback of a row with the state that it recorded, by whether its deadline is past.
  unfoldable pub roll_back_unless :
      Bool → RemediationRequest → ActionRow → PriorState → Action K (Unit {0})
  roll_back_unless true m target prior w =
      record_outcome m ActionResult.rollback_window_expired (referring target) w
  roll_back_unless false m target prior w =
      settle m (λ _. referring target) (rollback K w.own.cluster prior) w

  -- `deadline is not None and now > deadline` reads the clock only if a deadline is set.
  unfoldable pub roll_back_before :
      RemediationRequest → ActionRow → PriorState → Option ℕ → Action K (Unit {0})
  roll_back_before m target prior none = roll_back_unless false m target prior
  roll_back_before m target prior (some deadline) = do
    t ← now
    roll_back_unless (ltb deadline t) m target prior

  -- The rollback of a row by the state that it recorded, if any.
  unfoldable pub roll_back_from :
      RemediationRequest → ActionRow → Option PriorState → Action K (Unit {0})
  roll_back_from m target none =
      record_outcome m ActionResult.rollback_failed_no_reference no_details
  roll_back_from m target (some prior) = roll_back_before m target prior target.rollback_deadline

  unfoldable pub roll_back : RemediationRequest → Option ActionRow → Action K (Unit {0})
  roll_back m none = record_outcome m ActionResult.rollback_failed_no_reference no_details
  roll_back m (some target) = roll_back_from m target target.prior_state

  -- `message["target_action_id"]` raises KeyError where it is missing.
  unfoldable pub roll_back_request : RemediationRequest → Option String → Action K (Unit {0})
  roll_back_request m none = raise key_error
  roll_back_request m (some id) = do
    log ← gets (λ s. s.actions_log)
    roll_back m (load_action id log)

  abbrev pub describing : Outcome → Details
  describing o = record {
    prior_state = o.rollback_ref;
    applied_state = some o.reason;
    rollback_ref = none;
    set_rollback_deadline = is_status_executed o.status;
  }

  unfoldable pub carry_out : RemediationRequest → (K.Cluster → Change K) → Action K (Unit {0})
  carry_out m change w = settle m describing (change w.own.cluster) w

  unfoldable pub perform : RemediationRequest → Action K (Unit {0})
  perform m =
      if str_eq m.action (action_value RemediationAction.throttle)
      then carry_out m (λ c. throttle K c m.service)
      else if str_eq m.action (action_value RemediationAction.freeze_scaling)
      then carry_out m (λ c. freeze_scaling K c m.service)
      else record_outcome m (ActionResult.unsupported_action m.action) no_details

  -- By the ceiling that was hit, if any.
  unfoldable pub perform_below : RemediationRequest → Option Ceiling → Action K (Unit {0})
  perform_below m none = perform m
  perform_below m (some limit) = record_outcome m (blocked_by limit) no_details

  -- `handle` for anything but a rollback
  unfoldable pub remediate : List String → RemediationRequest → Action K (Unit {0})
  remediate prefixes m =
      if is_protected m.service prefixes
      then record_outcome m ActionResult.blocked_by_protected_floor no_details
      else do
        t ← now
        log ← gets (λ s. s.actions_log)
        perform_below m (rate_limit_exceeded t m.service log)

  unfoldable pub handle : List String → RemediationRequest → Action K (Unit {0})
  handle prefixes m =
      if str_eq m.action "rollback"
      then roll_back_request m m.target_action_id
      else remediate prefixes m
