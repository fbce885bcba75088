-- ===== src/Executor/Limits.antt =====
-- `_rate_limit_exceeded` of services/remediation-executor/app/main.py and the defaults of
-- app/config.py: the two ceilings on executed actions.
use hypertrace.Prelude.{
  ℕ, ◌+◌, ◌<◌, ◌≡◌, String, Bool, true, false, ◌&&◌, Option, none, some, List, count_if, leb,
  str_eq, arith, if◌then◌else◌,
}
use hypertrace.Effects.{minutes}
use hypertrace.Tables.{ActionRow, ActionResult}

abbrev pub max_actions_per_window : ℕ
max_actions_per_window = 10

abbrev pub rate_limit_window_minutes : ℕ
rate_limit_window_minutes = 5

abbrev pub max_actions_per_service : ℕ
max_actions_per_service = 1

abbrev pub service_rate_limit_window_minutes : ℕ
service_rate_limit_window_minutes = 15

abbrev pub rollback_window_minutes : ℕ
rollback_window_minutes = 60

-- `result IN ('executed', 'rolled_back')`
abbrev pub is_executed : ActionResult → Bool
is_executed ActionResult.executed = true
is_executed ActionResult.rolled_back = true
is_executed _ = false

abbrev pub targets : String → Option String → Bool
targets service none = false
targets service (some s) = str_eq s service

-- `executed_at >= now - window`
abbrev pub within : ℕ → ℕ → ActionRow → Bool
within now window row = leb now (row.executed_at + minutes window)

abbrev pub counts_globally : ℕ → ActionRow → Bool
counts_globally now row = within now rate_limit_window_minutes row && is_executed row.result

abbrev pub counts_for : ℕ → String → ActionRow → Bool
counts_for now service row =
    within now service_rate_limit_window_minutes row
    && (is_executed row.result && targets service row.target)

pub data Ceiling : Type 0 where
  global per_service : Ceiling

unfoldable pub rate_limit_exceeded : ℕ → String → List ActionRow → Option Ceiling
rate_limit_exceeded now service log =
    if leb max_actions_per_window (count_if (counts_globally now) log)
    then some Ceiling.global
    else if leb max_actions_per_service (count_if (counts_for now service) log)
    then some Ceiling.per_service
    else none

-- No ceiling is reported only when both counts are below theirs.
pub rate_limit_below :
    (now : ℕ) (service : String) (log : List ActionRow)
    → rate_limit_exceeded now service log ≡ none
    → (count_if (counts_globally now) log < max_actions_per_window)
      × (count_if (counts_for now service) log < max_actions_per_service)
unfolding rate_limit_exceeded
rate_limit_below now service log h = ground arith
