-- ===== src/Decision/Policy.antt =====
-- services/decision-policy/app/policy.py and the defaults of app/config.py.
use hypertrace.Prelude.{
  String, Bool, true, false, not, none, some, List, [], ◌∷◌, any_of, starts_with, str_eq,
  if◌then◌else◌,
}
use hypertrace.Float.{Float}
use hypertrace.Tables.{RuleDsl}

-- The default of `PROTECTED_NAMESPACE_PREFIXES`.
abbrev pub protected_namespace_prefixes : List String
protected_namespace_prefixes = "kube-system" ∷ []

-- `classification in classifications`
abbrev pub listed : String → List String → Bool
listed x xs = any_of (str_eq x) xs

module _ {N : Type 0} ⦃f : Float N⦄ where
  -- The four guards of `policy_matches`. An empty list and an empty prefix count as absent.
  abbrev pub confidence_fails : RuleDsl N → N → Bool
  confidence_fails rule confidence = elim rule.min_confidence [
    | none ↦ false
    | some least ↦ f.lt confidence least
  ]

  abbrev pub classification_fails : RuleDsl N → String → Bool
  classification_fails rule classification = elim rule.classifications [
    | none ↦ false
    | some [] ↦ false
    | some (c ∷ cs) ↦ not (listed classification (c ∷ cs))
  ]

  abbrev pub cost_fails : RuleDsl N → N → Bool
  cost_fails rule cost = elim rule.min_cost_per_hour [ none ↦ false | some least ↦ f.lt cost least ]

  abbrev pub prefix_fails : RuleDsl N → String → Bool
  prefix_fails rule service = elim rule.service_prefix [
    | none ↦ false
    | some p ↦ if str_eq p "" then false else not (starts_with service p)
  ]

  unfoldable pub policy_matches : RuleDsl N → String → String → N → N → Bool
  policy_matches rule classification service cost confidence =
      if confidence_fails rule confidence
      then false
      else if classification_fails rule classification
      then false
      else if cost_fails rule cost
      then false
      else if prefix_fails rule service
      then false
      else true

unfoldable pub is_protected : String → List String → Bool
is_protected service prefixes = any_of (starts_with service) prefixes
