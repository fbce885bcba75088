-- ===== src/Bff/Policies.antt =====
-- services/api-bff/app/main.py: the endpoints of the policies.
pub mod Managed
use hypertrace.Prelude.{
  none, some, ℕ, String, Bool, true, false, not, List, [], ◌∷◌, ◌++◌, sort_by, select, str_eq,
  leb_ℤ, any_of, if◌then◌else◌,
}
use hypertrace.Effects.{pure, raise, gets, modify, uuid4, http_error, value_error, ◌>>=◌, ◌>>◌}
use hypertrace.Schemas.{action_value, action_of_string}
use hypertrace.Tables.{PolicyRow}
use hypertrace.Bff.Auth.{Crypto, get_current_user, require_sre}
use hypertrace.Bff.Actions.{Database, Action}
use hypertrace.Bff.Dashboard.{PolicyIn}

module _ {N : Type 0} where
  -- `ORDER BY priority DESC`
  abbrev pub is_higher : PolicyRow N → PolicyRow N → Bool
  is_higher a b = leb_ℤ b.priority a.priority

  -- A row whose action is no `RemediationAction`, which the answer cannot hold.
  unfoldable pub is_unknown : PolicyRow N → Bool
  is_unknown r = elim (action_of_string r.action) [ none ↦ true | some _ ↦ false ]

  -- `list_policies`
  unfoldable pub list_policies : Crypto → String → Action N (List (PolicyRow N))
  list_policies k token = do
    get_current_user k token
    rows ← gets (λ s. s.policies)
    if any_of is_unknown rows then raise value_error else pure (sort_by is_higher rows)

  abbrev pub policy_row : String → PolicyIn N → PolicyRow N
  policy_row id p = record {
    id = id;
    org_id = p.org_id;
    rule_dsl = p.rule_dsl;
    scope = p.scope;
    action = action_value p.action;
    priority = p.priority;
  }

  -- `create_policy`
  unfoldable pub create_policy : Crypto → String → PolicyIn N → Action N (PolicyRow N)
  create_policy k token p = do
    require_sre k token
    id ← uuid4
    modify (λ s. record s { policies = s.policies ++ policy_row id p ∷ [] })
    pure (policy_row id p)

  -- The rows that a `DELETE` leaves.
  unfoldable pub without : String → List (PolicyRow N) → List (PolicyRow N)
  without id [] = []
  without id (r ∷ rows) = let rest = without id rows in if str_eq r.id id then rest else r ∷ rest

  unfoldable pub has_policy : String → List (PolicyRow N) → Bool
  has_policy id rows = any_of (λ r. str_eq r.id id) rows

  -- `delete_policy`, whose row count is zero just when there was no such row.
  unfoldable pub delete_policy : Crypto → String → String → Action N (Unit {0})
  delete_policy k token id = do
    require_sre k token
    rows ← gets (λ s. s.policies)
    modify (λ s. record s { policies = without id s.policies })
    if has_policy id rows then pure tt else raise (http_error 404)
