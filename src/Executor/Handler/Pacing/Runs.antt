-- ===== src/Executor/Handler/Pacing/Runs.antt =====
-- The ceilings over runs.
use hypertrace.Prelude.{
  ℕ, ◌+◌, ◌≤◌, ◌<◌, String, ◌≡◌, Bool, true, false, ◌&&◌, some, List, [], ◌∷◌, ◌++◌, count_if,
  count_if_mono, count_if-append, eq_iff, arith, leb,
}
use mathlib.Core.Path.{sym, subst}
use hypertrace.Effects.{minutes}
use hypertrace.Schemas.{RemediationRequest}
use hypertrace.Tables.{ActionRow}
use hypertrace.Executor.Cluster.{Kubernetes}
use hypertrace.Executor.Limits.{
  counts_globally, counts_for, targets, max_actions_per_window, max_actions_per_service,
  rate_limit_window_minutes, service_rate_limit_window_minutes,
}
use hypertrace.Executor.Handler.{handle, is_status_executed}
use hypertrace.Executor.Handler.Safety.{State}
use hypertrace.Executor.Handler.Pacing.{Grown, same, noted, acted, handle-Grown, handle-clock}

-- A row that executed at most some minutes after a time.
abbrev pub executed_in : ℕ → ℕ → ActionRow → Bool
executed_in since window row =
    leb since row.executed_at
    && (leb row.executed_at (since + minutes window) && is_status_executed row.result)

abbrev pub executed_for : ℕ → ℕ → String → ActionRow → Bool
executed_for since window service row = executed_in since window row && targets service row.target

-- In any five minutes at most ten actions were executed, and in any fifteen at most one on a service.
pub record IsPaced (log : List ActionRow) : Type 0 where
  pub overall :
      (since : ℕ)
      → count_if (executed_in since rate_limit_window_minutes) log ≤ max_actions_per_window
  pub each :
      (since : ℕ) (service : String)
      → count_if (executed_for since service_rate_limit_window_minutes service) log
        ≤ max_actions_per_service

-- A row that executed in a window counts at the time of a later one of the same window.
counted_globally :
    (since : ℕ) (r row : ActionRow)
    → executed_in since rate_limit_window_minutes row ≡ true
    → executed_in since rate_limit_window_minutes r ≡ true
    → counts_globally row.executed_at r ≡ true
counted_globally since r row q e = ground arith

counted_for :
    (since : ℕ) (other service : String) (r row : ActionRow)
    → row.target ≡ some service
    → executed_for since service_rate_limit_window_minutes other row ≡ true
    → executed_for since service_rate_limit_window_minutes other r ≡ true
    → counts_for row.executed_at service r ≡ true
counted_for since other service r row t q e = ground (arith, eq_iff service other)

module _ (log : List ActionRow) (row : ActionRow) where
  -- A row adds one to a count that it belongs to.
  count_last :
      (p : ActionRow → Bool) (most : ℕ)
      → count_if p log ≤ most
      → (p row ≡ true → count_if p log < most)
      → count_if p (log ++ row ∷ []) ≤ most
  unfolding count_if
  count_last p most h fresh = ground (arith, count_if-append p log (row ∷ []))

  noted-IsPaced : is_status_executed row.result ≡ false → IsPaced log → IsPaced (log ++ row ∷ [])
  noted-IsPaced e h = record {
    overall = λ since. count_last _ _ (h.overall since) (λ q. ground arith);
    each = λ since service. count_last _ _ (h.each since service) (λ q. ground arith);
  }

  acted-IsPaced :
      (service : String)
      → row.target ≡ some service
      → count_if (counts_globally row.executed_at) log < max_actions_per_window
      → count_if (counts_for row.executed_at service) log < max_actions_per_service
      → IsPaced log
      → IsPaced (log ++ row ∷ [])
  acted-IsPaced service t a b h = record {
    overall = λ since. count_last _ _ (h.overall since) (λ q.
        let fewer =
          count_if_mono (executed_in since rate_limit_window_minutes)
            (counts_globally row.executed_at) log (λ r e. counted_globally since r row q e) in
        omega (arith, fewer));
    each = λ since other. count_last _ _ (h.each since other) (λ q.
        let fewer =
          count_if_mono (executed_for since service_rate_limit_window_minutes other)
            (counts_for row.executed_at service) log
            (λ r e. counted_for since other service r row t q e) in
        omega (arith, fewer));
  }

-- One row after another.
growth-IsPaced : (log log' : List ActionRow) → Grown log log' → IsPaced log → IsPaced log'
growth-IsPaced log _ (same log' e) h = subst IsPaced (sym e) h
growth-IsPaced log _ (noted log' row quiet e) h =
    subst IsPaced (sym e) (noted-IsPaced log row quiet h)
growth-IsPaced log _ (acted log' row service t a b e) h =
    subst IsPaced (sym e) (acted-IsPaced log row service t a b h)

-- A clock that never goes back.
abbrev pub Ticks : (ℕ → ℕ) → Type 0
Ticks clock = (n : ℕ) → clock n ≤ clock (n + 1)

-- What happens to the ledger: the executor handles a request, or another service appends a row of
-- its own, which executed nothing.
pub data Event : Type 0 where
  requested : RemediationRequest → Event
  appended : (row : ActionRow) → is_status_executed row.result ≡ false → Event

module _ (K : Kubernetes) (prefixes : List String) where
  abbrev pub happen : Event → State K → State K
  happen (requested m) w = (handle K prefixes m w).1
  happen (appended row _) w = record w {
    own = record w.own { actions_log = w.own.actions_log ++ row ∷ [] };
  }

  unfoldable pub run : List Event → State K → State K
  run [] w = w
  run (e ∷ es) w = run es (happen e w)

  -- Whatever requests the executor handles, in whatever order, and whatever rows that executed
  -- nothing other services append in between, a ledger with at most ten actions executed in any five
  -- minutes and at most one on a service in any fifteen stays one, as long as the clock never goes
  -- back. Rollbacks are not among the actions counted.
  pub run-IsPaced :
      (es : List Event) (w : State K)
      → Ticks w.clock
      → IsPaced w.own.actions_log
      → IsPaced (run es w).own.actions_log
  unfolding run
  run-IsPaced [] w later h = h
  run-IsPaced (requested m ∷ es) w later h =
      run-IsPaced es (happen (requested m) w)
        (subst Ticks (sym (handle-clock K prefixes m w)) later)
        (growth-IsPaced _ _ (handle-Grown K prefixes m w (later w.reads)) h)
  run-IsPaced (appended row quiet ∷ es) w later h =
      run-IsPaced es (happen (appended row quiet) w) later
        (noted-IsPaced w.own.actions_log row quiet h)
