-- ===== src/Pipeline/Undoing/Carried.antt =====
-- What the executor has done when it leaves an executed row for a throttle.
use hypertrace.Prelude.{
  ℕ, ◌+◌, String, ◌≡◌, ◌≢◌, refl, sym, ap, ◌∙◌, true, false, Option, none, some, List, [], ◌∷◌,
  ◌++◌, str_eq, eq_iff, arith, Bool-cases, inl, inr,
}
use mathlib.Core.Path.{subst}
use mathlib.Core.List.{append_cancel_left, head-eq_of_cons-eq}
use hypertrace.Effects.{ok, err, minutes}
use hypertrace.Schemas.{RemediationRequest}
use hypertrace.Tables.{ActionRow, ActionResult}
use hypertrace.Executor.Cluster.{Kubernetes}
use hypertrace.Executor.Service.{is_protected}
use hypertrace.Executor.Actions.{Outcome, Change, throttle}
use hypertrace.Executor.Limits.{Ceiling, rate_limit_exceeded, rollback_window_minutes}
use hypertrace.Executor.Handler.{
  settle, describing, blocked_by, outcome_row, carry_out, perform, perform_below, remediate, handle,
}
use hypertrace.Executor.Handler.Safety.{State}
use hypertrace.Pipeline.Advisory.{concat≢self}

module _ (K : Kubernetes) where
  -- What an executed row that a request left says of the change that was carried out.
  pub record Carried (change : Change K) (row : ActionRow) (w' : State K) : Type 0 where
    pub outcome : Outcome
    pub cluster : K.Cluster
    pub answered : change ≡ ok (outcome, cluster)
    pub executed : outcome.status ≡ ActionResult.executed
    pub prior : row.prior_state ≡ outcome.rollback_ref
    pub deadline : row.rollback_deadline ≡ some (row.executed_at + minutes rollback_window_minutes)
    pub left : w'.own.cluster ≡ cluster

  last_row : (log : List ActionRow) (a b : ActionRow) → log ++ a ∷ [] ≡ log ++ b ∷ [] → a ≡ b
  last_row log a b h = head-eq_of_cons-eq (append_cancel_left log (a ∷ []) (b ∷ []) h)

  executed-deadline :
      (m : RemediationRequest) (o : Outcome) (id : String) (at : ℕ) (row : ActionRow)
      → outcome_row id at m o.status (describing K o) ≡ row
      → row.result ≡ ActionResult.executed
      → row.rollback_deadline ≡ some (row.executed_at + minutes rollback_window_minutes)
  executed-deadline m o id at row same e = ground arith

  settle-Carried :
      (m : RemediationRequest) (change : Change K) (w : State K) (row : ActionRow)
      → (settle K m (describing K) change w).1.own.actions_log ≡ w.own.actions_log ++ row ∷ []
      → row.result ≡ ActionResult.executed
      → Carried change row (settle K m (describing K) change w).1
  unfolding settle
  settle-Carried m (ok (o, c)) w row h e =
      let same = last_row w.own.actions_log _ row h in
      record {
        outcome = o;
        cluster = c;
        answered = refl;
        executed = ap (λ (r : ActionRow). r.result) same ∙ e;
        prior = ap (λ (r : ActionRow). r.prior_state) (sym same);
        deadline = executed-deadline m o (w.uuid w.made) (w.clock w.reads) row same e;
        left = refl;
      }
  settle-Carried m (err x) w row h e = absurd (concat≢self w.own.actions_log row (sym h))

  -- A row that was not executed is none that was.
  not_executed :
      (log : List ActionRow) (a row : ActionRow)
      → a.result ≢ ActionResult.executed
      → log ++ a ∷ [] ≡ log ++ row ∷ []
      → row.result ≢ ActionResult.executed
  not_executed log a row h e k = h (ap (λ (r : ActionRow). r.result) (last_row log a row e) ∙ k)

  perform-throttle :
      (m : RemediationRequest) (w : State K)
      → m.action ≡ "throttle"
      → perform K m w ≡ settle K m (describing K) (throttle K w.own.cluster m.service) w
  unfolding perform carry_out
  perform-throttle m w a =
      let named : str_eq m.action "throttle" ≡ true = (eq_iff m.action "throttle").1 a in
      rw named refl

  blocked-executed : (limit : Ceiling) → blocked_by limit ≢ ActionResult.executed
  blocked-executed limit h = ground arith

  perform_below-Carried :
      (m : RemediationRequest) (limit : Option Ceiling) (w : State K) (row : ActionRow)
      → m.action ≡ "throttle"
      → (perform_below K m limit w).1.own.actions_log ≡ w.own.actions_log ++ row ∷ []
      → row.result ≡ ActionResult.executed
      → Carried (throttle K w.own.cluster m.service) row (perform_below K m limit w).1
  unfolding perform_below
  perform_below-Carried m none w row a h e =
      let same = perform-throttle m w a in
      subst (λ p. Carried (throttle K w.own.cluster m.service) row p.1) (sym same)
        (settle-Carried m (throttle K w.own.cluster m.service) w row
          (ap (λ p. p.1.own.actions_log) (sym same) ∙ h) e)
  perform_below-Carried m (some limit) w row a h e =
      absurd (not_executed w.own.actions_log _ row (blocked-executed limit) h e)

  remediate-Carried :
      (prefixes : List String) (m : RemediationRequest) (w : State K) (row : ActionRow)
      → m.action ≡ "throttle"
      → (remediate K prefixes m w).1.own.actions_log ≡ w.own.actions_log ++ row ∷ []
      → row.result ≡ ActionResult.executed
      → Carried (throttle K w.own.cluster m.service) row (remediate K prefixes m w).1
  unfolding remediate
  remediate-Carried prefixes m w row a h e = elim (Bool-cases (is_protected m.service prefixes)) [
    | inl q ↦ absurd (not_executed w.own.actions_log _ row (λ k. ground arith) (rw q at h) e)
    | inr q ↦ rw q (
        perform_below-Carried m (rate_limit_exceeded (w.clock w.reads) m.service w.own.actions_log)
          (record w { reads = w.reads + 1 }) row a (rw q at h) e)
  ]

  handle-remediate :
      (prefixes : List String) (m : RemediationRequest) (w : State K)
      → m.action ≡ "throttle"
      → handle K prefixes m w ≡ remediate K prefixes m w
  unfolding handle
  handle-remediate prefixes m w a =
      let other : str_eq m.action "rollback" ≡ false = rw a refl in rw other refl

  pub handle-Carried :
      (prefixes : List String) (m : RemediationRequest) (w : State K) (row : ActionRow)
      → m.action ≡ "throttle"
      → (handle K prefixes m w).1.own.actions_log ≡ w.own.actions_log ++ row ∷ []
      → row.result ≡ ActionResult.executed
      → Carried (throttle K w.own.cluster m.service) row (handle K prefixes m w).1
  handle-Carried prefixes m w row a h e =
      let same = handle-remediate prefixes m w a in
      subst (λ p. Carried (throttle K w.own.cluster m.service) row p.1) (sym same)
        (remediate-Carried prefixes m w row a (ap (λ p. p.1.own.actions_log) (sym same) ∙ h) e)
