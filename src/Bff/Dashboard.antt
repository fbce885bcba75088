-- ===== src/Bff/Dashboard.antt =====
-- services/api-bff/app/main.py: the endpoints that read the tables.
pub mod Latest
pub mod Summary
use hypertrace.Prelude.{
  ℕ, ◌*◌, ◌-◌, String, Bool, true, ◌&&◌, Option, none, some, List, [], ◌∷◌, map, select, take,
  sort_by, Dict, str_eq, leb, if◌then◌else◌, ℤ,
}
use hypertrace.Float.{Float}
use hypertrace.Effects.{pure, gets, now, minutes, ◌>>=◌, ◌>>◌}
use hypertrace.Schemas.{RemediationAction, Evidence, Mode}
use hypertrace.Tables.{CostRow, AnomalyRow, ActionRow, ActionResult, RuleDsl}
use hypertrace.Bff.Auth.{Crypto, get_current_user}
use hypertrace.Bff.Actions.{Action, is_later}

pub record CostPoint (N : Type 0) : Type 0 where
  pub time : ℕ
  pub cost_per_hour : N

pub record SummaryEntry (N : Type 0) : Type 0 where
  pub service : String
  pub cost_per_hour : N

pub record DashboardSummary (N : Type 0) : Type 0 where
  pub total_cost_per_hour : N
  pub top_services : List (SummaryEntry N)

pub record PolicyIn (N : Type 0) : Type 0 where
  pub org_id : String
  pub rule_dsl : RuleDsl N
  pub scope : String
  pub action : RemediationAction
  pub priority : ℤ

pub record AnomalyOut (N : Type 0) : Type 0 where
  pub id : String
  pub service : String
  pub score : N
  pub classification : String
  pub evidence : Evidence N
  pub status : String
  pub created_at : ℕ

pub record ActionOut : Type 0 where
  pub id : String
  pub anomaly_id : Option String
  pub parent_action_id : Option String
  pub action_type : String
  pub mode : Mode
  pub executed_at : ℕ
  pub result : ActionResult
  pub rollback_ref : Option String

abbrev pub action_out : ActionRow → ActionOut
action_out r = record {
  id = r.id;
  anomaly_id = r.anomaly_id;
  parent_action_id = r.parent_action_id;
  action_type = r.action_type;
  mode = r.mode;
  executed_at = r.executed_at;
  result = r.result;
  rollback_ref = r.rollback_ref;
}

module _ {N : Type 0} where
  abbrev pub anomaly_out : AnomalyRow N → AnomalyOut N
  anomaly_out r = record {
    id = r.id;
    service = r.service;
    score = r.score;
    classification = r.classification;
    evidence = r.evidence;
    status = r.status;
    created_at = r.created_at;
  }

  -- `ORDER BY time`
  abbrev pub is_earlier : CostRow N → CostRow N → Bool
  is_earlier a b = leb a.time b.time

  -- `get_service_cost`
  unfoldable pub get_service_cost : Crypto → String → String → ℕ → Action N (List (CostPoint N))
  get_service_cost k token service_id range_hours = do
    get_current_user k token
    at ← now
    rows ← gets (λ s. s.cost_events)
    pure (
        map (λ (r : CostRow N). record { time = r.time; cost_per_hour = r.cost_per_hour })
          (sort_by is_earlier (
            select
              (λ r. str_eq r.service service_id && leb (at - minutes (range_hours * 60)) r.time)
              rows)))

  -- `latest_by_service.setdefault`
  unfoldable pub setdefault : String → N → Dict N → Dict N
  setdefault key value [] = (key, value) ∷ []
  setdefault key value ((j, v) ∷ d) =
      if str_eq j key then (j, v) ∷ d else (j, v) ∷ setdefault key value d

  unfoldable pub latest_by_service : List (CostRow N) → Dict N → Dict N
  latest_by_service [] d = d
  latest_by_service (r ∷ rows) d = latest_by_service rows (setdefault r.service r.cost_per_hour d)

  unfoldable pub entries : Dict N → List (SummaryEntry N)
  entries [] = []
  entries ((s, c) ∷ d) = record { service = s; cost_per_hour = c } ∷ entries d

module _ {N : Type 0} ⦃f : Float N⦄ (by_text : String → String → Bool) where
  -- `ORDER BY service, time DESC`; the collation of the text is the database's.
  abbrev pub by_service_latest : CostRow N → CostRow N → Bool
  by_service_latest a b =
      if str_eq a.service b.service then leb b.time a.time else by_text a.service b.service

  abbrev pub is_dearer : SummaryEntry N → SummaryEntry N → Bool
  is_dearer a b = f.le b.cost_per_hour a.cost_per_hour

  unfoldable pub total : Dict N → N → N
  total [] sum = sum
  total ((_, c) ∷ d) sum = total d (f.add sum c)

  -- `get_dashboard_summary`, from the time of its query on.
  unfoldable pub summarise : ℕ → List (CostRow N) → DashboardSummary N
  summarise at rows =
      let latest =
        latest_by_service
          (sort_by by_service_latest (select (λ r. leb (at - minutes 5) r.time) rows)) [] in
      record {
        total_cost_per_hour = total latest (f.milli 0);
        top_services = take 10 (sort_by is_dearer (entries latest));
      }

  unfoldable pub get_dashboard_summary : Crypto → String → Action N (DashboardSummary N)
  get_dashboard_summary k token = do
    get_current_user k token
    at ← now
    rows ← gets (λ s. s.cost_events)
    pure (summarise at rows)

module _ {N : Type 0} where
  abbrev pub is_newer : AnomalyRow N → AnomalyRow N → Bool
  is_newer a b = leb b.created_at a.created_at

  -- Whether an anomaly passes the optional filter, which an empty text leaves out.
  unfoldable pub is_wanted : Option String → AnomalyRow N → Bool
  is_wanted none r = true
  is_wanted (some s) r = if str_eq s "" then true else str_eq r.service s

  -- `list_anomalies`
  unfoldable pub list_anomalies :
      Crypto → String → ℕ → Option String → Action N (List (AnomalyOut N))
  list_anomalies k token limit service = do
    get_current_user k token
    rows ← gets (λ s. s.anomalies)
    pure (map anomaly_out (take limit (sort_by is_newer (select (is_wanted service) rows))))

  -- `list_actions`
  unfoldable pub list_actions : Crypto → String → ℕ → Action N (List ActionOut)
  list_actions k token limit = do
    get_current_user k token
    rows ← gets (λ s. s.actions_log)
    pure (map action_out (take limit (sort_by is_later rows)))
