-- ===== src/Pipeline/Undoing/Undone.antt =====
-- What the executor has done when it answers the rollback request of the API.
use hypertrace.Prelude.{
  ℕ, ◌+◌, ◌≤◌, String, ◌≡◌, refl, sym, ap, ◌∙◌, true, false, Bool, some, List, ltb, arith,
}
use mathlib.Core.Path.{subst}
use hypertrace.Effects.{ok, err}
use hypertrace.Schemas.{RemediationRequest}
use hypertrace.Tables.{ActionRow, PriorState}
use hypertrace.Bff.Actions.{rollback_request}
use hypertrace.Executor.Cluster.{Kubernetes}
use hypertrace.Executor.Actions.{Outcome, Change, rollback}
use hypertrace.Executor.Handler.{
  settle, referring, load_action, roll_back_unless, roll_back_before, roll_back_from, roll_back,
  roll_back_request, handle,
}
use hypertrace.Executor.Handler.Safety.{State}

module _ (K : Kubernetes) where
  -- A rollback that was answered has found a row with a state to restore, and restored it.
  pub record Undone (row : ActionRow) (w w' : State K) : Type 0 where
    pub prior : PriorState
    pub outcome : Outcome
    pub cluster : K.Cluster
    pub found : row.prior_state ≡ some prior
    pub answered : rollback K w.own.cluster prior ≡ ok (outcome, cluster)
    pub left : w'.own.cluster ≡ cluster

  settle-Undone :
      (m : RemediationRequest) (row : ActionRow) (prior : PriorState) (w0 w : State K)
      (change : Change K)
      → row.prior_state ≡ some prior
      → rollback K w0.own.cluster prior ≡ change
      → (settle K m (λ _. referring K row) change w).0 ≡ ok tt
      → Undone row w0 (settle K m (λ _. referring K row) change w).1
  unfolding settle
  settle-Undone m row prior w0 w (ok (o, c)) f r h = record {
    prior = prior;
    outcome = o;
    cluster = c;
    found = f;
    answered = r;
    left = refl;
  }
  settle-Undone m row prior w0 w (err x) f r h = absurd (ground arith)

  roll_back_unless-Undone :
      (m : RemediationRequest) (row : ActionRow) (prior : PriorState) (late : Bool) (w0 w : State K)
      → late ≡ false
      → row.prior_state ≡ some prior
      → w.own.cluster ≡ w0.own.cluster
      → (roll_back_unless K late m row prior w).0 ≡ ok tt
      → Undone row w0 (roll_back_unless K late m row prior w).1
  unfolding roll_back_unless
  roll_back_unless-Undone m row prior true w0 w e f c h = absurd (ground arith)
  roll_back_unless-Undone m row prior false w0 w e f c h =
      settle-Undone m row prior w0 w (rollback K w.own.cluster prior) f
        (ap (λ c. rollback K c prior) (sym c)) h

  roll_back-unless :
      (m : RemediationRequest) (row : ActionRow) (prior : PriorState) (deadline : ℕ) (w : State K)
      → row.prior_state ≡ some prior
      → row.rollback_deadline ≡ some deadline
      → roll_back K m (some row) w
        ≡ roll_back_unless K
            (ltb deadline (w.clock w.reads))
            m
            row
            prior
            (record w { reads = w.reads + 1 })
  unfolding roll_back roll_back_from roll_back_before
  roll_back-unless m row prior deadline w f d =
      ap (λ p. roll_back_from K m row p w) f ∙ ap (λ t. roll_back_before K m row prior t w) d

  pub roll_back-Undone :
      (m : RemediationRequest) (row : ActionRow) (prior : PriorState) (deadline : ℕ) (w : State K)
      → row.prior_state ≡ some prior
      → row.rollback_deadline ≡ some deadline
      → w.clock w.reads ≤ deadline
      → (roll_back K m (some row) w).0 ≡ ok tt
      → Undone row w (roll_back K m (some row) w).1
  roll_back-Undone m row prior deadline w f d time h =
      let same = roll_back-unless m row prior deadline w f d in
      subst (λ p. Undone row w p.1) (sym same)
        (roll_back_unless-Undone m row prior (ltb deadline (w.clock w.reads)) w
          (record w { reads = w.reads + 1 }) (ground arith) f refl (sym (ap (λ p. p.0) same) ∙ h))

  pub handle-roll_back :
      (prefixes : List String) (id anomaly_id : String) (row : ActionRow) (w : State K)
      → load_action row.id w.own.actions_log ≡ some row
      → handle K prefixes (rollback_request id anomaly_id row.id) w
        ≡ roll_back K (rollback_request id anomaly_id row.id) (some row) w
  unfolding handle roll_back_request
  handle-roll_back prefixes id anomaly_id row w h = rw h refl
