-- ===== src/Decision/Matching.antt =====
-- `_find_matching_policy` of services/decision-policy/app/main.py: the policies by ascending
-- priority number, and the first that matches.
use hypertrace.Prelude.{
  String, ◌≡◌, Bool, true, false, Option, none, some, List, [], ◌∷◌, All, All-map, All-Mem, ◌⊎◌,
  sort_by, IsSortedBy, sort_by-IsSortedBy, All-sort_by_inverse, All-sort_by, leb_ℤ, arith,
  if◌then◌else◌, Bool-cases, inl, inr,
}
use mathlib.Core.Path.{subst}
use mathlib.Core.List.{Memᴰ}
use hypertrace.Float.{Float}
use hypertrace.Tables.{PolicyRow}
use hypertrace.Decision.Policy.{policy_matches}

module _ {N : Type 0} where
  -- `ORDER BY priority ASC`
  abbrev pub precedes : PolicyRow N → PolicyRow N → Bool
  precedes p q = leb_ℤ p.priority q.priority

  -- The loop over the rows.
  unfoldable pub first_match : (PolicyRow N → Bool) → List (PolicyRow N) → Option (PolicyRow N)
  first_match p [] = none
  first_match p (row ∷ rows) = if p row then some row else first_match p rows

  precedes_refl : (q : PolicyRow N) → precedes q q ≡ true
  precedes_refl q = ground arith

  precedes_total : (q r : PolicyRow N) → precedes q r ≡ false → precedes r q ≡ true
  precedes_total q r h = ground arith

  precedes_trans :
      (q r s : PolicyRow N) → precedes q r ≡ true → precedes r s ≡ true → precedes q s ≡ true
  precedes_trans q r s h k = ground arith

module _ {N : Type 0} ⦃f : Float N⦄ where
  unfoldable pub find_matching_policy :
      List (PolicyRow N) → String → String → N → N → Option (PolicyRow N)
  unfolding first_match
  find_matching_policy policies classification service cost confidence =
      first_match (λ row. policy_matches row.rule_dsl classification service cost confidence)
        (sort_by precedes policies)

module _ {N : Type 0} (p : PolicyRow N → Bool) where
  -- What the loop finds, for any property of the rows.
  first_match-found :
      (P : PolicyRow N → Type 0) (rows : List (PolicyRow N)) {row : PolicyRow N}
      → All P rows
      → first_match p rows ≡ some row
      → P row × (p row ≡ true)
  unfolding first_match
  first_match-found P [] h e = cc
  first_match-found P (r ∷ rows) {row} h e = elim (Bool-cases (p r)) [
    | inl t ↦
        let same : r ≡ row = ground arith in (subst P same h.0, subst (λ q. p q ≡ true) same t)
    | inr f ↦ first_match-found P rows h.1 (rw f at e)
  ]

  first_match-none :
      (rows : List (PolicyRow N)) → first_match p rows ≡ none → All (λ q. p q ≡ false) rows
  unfolding first_match
  first_match-none [] e = tt
  first_match-none (r ∷ rows) e = ground (arith, first_match-none rows)

  -- In a sorted table nothing that matches stands before the row that is found.
  first_match-least :
      (rows : List (PolicyRow N)) {row : PolicyRow N}
      → IsSortedBy precedes rows
      → first_match p rows ≡ some row
      → All (λ q. p q ≡ true → precedes row q ≡ true) rows
  unfolding first_match
  first_match-least [] h e = tt
  first_match-least (r ∷ rows) {row} h e = elim (Bool-cases (p r)) [
    | inl t ↦
        let same : r ≡ row = ground arith in
        subst (λ x. All (λ q. p q ≡ true → precedes x q ≡ true) (r ∷ rows)) same
          (
            (λ _. precedes_refl r),
            All-map (λ q. precedes r q ≡ true) (λ q. p q ≡ true → precedes r q ≡ true) rows
                (λ q before _. before) h.0,
          )
    | inr f ↦ ((λ t. cc), first_match-least rows h.1 (rw f at e))
  ]

module _ {N : Type 0} ⦃f : Float N⦄ (policies : List (PolicyRow N))
    (classification service : String) (cost confidence : N) where
  abbrev matches : PolicyRow N → Bool
  matches row = policy_matches row.rule_dsl classification service cost confidence

  -- The policy that is found is one of the table and matches, and every other that matches has a
  -- priority number at least as high.
  pub find_matching_policy_least :
      (row : PolicyRow N)
      → find_matching_policy policies classification service cost confidence ≡ some row
      → Memᴰ row policies
        × (policy_matches row.rule_dsl classification service cost confidence ≡ true)
        × All
            (λ q.
              (policy_matches q.rule_dsl classification service cost confidence ≡ false)
              ⊎ (leb_ℤ row.priority q.priority ≡ true))
            policies
  unfolding find_matching_policy
  find_matching_policy_least row h =
      let sorted = sort_by-IsSortedBy precedes precedes_total precedes_trans policies in
      let rows = sort_by precedes policies in
      let found =
        first_match-found matches (λ q. Memᴰ q policies) rows
          (All-sort_by precedes (λ q. Memᴰ q policies) policies (All-Mem policies)) h in
      (
        found.0,
        found.1,
        All-map (λ q. matches q ≡ true → precedes row q ≡ true)
            (λ q. (matches q ≡ false) ⊎ (precedes row q ≡ true)) policies
            (λ q k. elim (Bool-cases (matches q)) [ inl t ↦ inr (k t) | inr e ↦ inl e ])
            (All-sort_by_inverse precedes (λ q. matches q ≡ true → precedes row q ≡ true) policies
              (first_match-least matches rows sorted h)),
      )

  -- No policy is found only when none matches.
  pub find_matching_policy-none :
      find_matching_policy policies classification service cost confidence ≡ none
      → All (λ q. policy_matches q.rule_dsl classification service cost confidence ≡ false) policies
  unfolding find_matching_policy
  find_matching_policy-none h =
      All-sort_by_inverse precedes (λ q. matches q ≡ false) policies
        (first_match-none matches (sort_by precedes policies) h)
