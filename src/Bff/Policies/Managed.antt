-- ===== src/Bff/Policies/Managed.antt =====
-- Creating and deleting policies.
use hypertrace.Prelude.{
  String, ◌≡◌, ◌+◌, sym, ap, ◌∙◌, true, false, List, [], ◌∷◌, ◌++◌, eq_iff, any_of, arith,
  if◌then◌else◌,
}
use mathlib.Core.Path.{subst}
use hypertrace.Effects.{uuid4, modify, pure, gets, raise, ◌>>=◌, ◌>>◌, Result, ok, err, http_error}
use hypertrace.Tables.{PolicyRow}
use hypertrace.Bff.Auth.{Crypto, Claims, require_sre}
use hypertrace.Bff.Auth.Access.{Gate, refused, unnamed, passed, gated, require_sre-Gate}
use hypertrace.Bff.Actions.{State, Database}
use hypertrace.Bff.Dashboard.{PolicyIn}
use hypertrace.Bff.Policies.{policy_row, create_policy, without, has_policy, delete_policy}

module _ {N : Type 0} where
  without-fresh :
      (id : String) (p : PolicyIn N) (rows : List (PolicyRow N))
      → has_policy id rows ≡ false
      → (without id (rows ++ policy_row id p ∷ []) ≡ rows)
        × (has_policy id (rows ++ policy_row id p ∷ []) ≡ true)
  unfolding without has_policy any_of
  without-fresh id p [] h = (ground (arith, eq_iff id id), ground (arith, eq_iff id id))
  without-fresh id p (r ∷ rows) h = ground (arith, without-fresh id p rows)

  Gate-ok :
      (k : Crypto) (token : String) (w : State N) (g : Result Claims × State N) (user : Claims)
      → Gate k token w g
      → g.0 ≡ ok user
      → g ≡ (ok user, gated k w)
  Gate-ok k token w _ user (refused code e) h = ground arith
  Gate-ok k token w _ user (unnamed payload d q) h = ground arith
  Gate-ok k token w _ user (passed u valid role) h = ap (λ r. (r, gated k w)) h

  -- The world after a policy was created.
  abbrev with_policy : Crypto → PolicyIn N → State N → State N
  with_policy k p w = record (gated k w) {
    made = w.made + 1;
    own = record w.own { policies = w.own.policies ++ policy_row (w.uuid w.made) p ∷ [] };
  }

  create_policy-passed :
      (k : Crypto) (token : String) (p : PolicyIn N) (w : State N) (user : Claims)
      → (require_sre k token w).0 ≡ ok user
      → create_policy k token p w ≡ (ok (policy_row (w.uuid w.made) p), with_policy k p w)
  unfolding create_policy
  create_policy-passed k token p w user h =
      ap
        (λ (g : Result Claims × State N). elim g.0 [
          | ok _ ↦
              ((uuid4 >>= λ id.
              modify
                (λ (s : Database N). record s { policies = s.policies ++ policy_row id p ∷ [] })
              >> pure (policy_row id p))
                g.1)
          | err e ↦ (err e, g.1)
        ])
        (Gate-ok k token w (require_sre k token w) user (require_sre-Gate k token w) h)

  delete_policy-passed :
      (k : Crypto) (token id : String) (w : State N) (user : Claims)
      → (require_sre k token w).0 ≡ ok user
      → has_policy id w.own.policies ≡ true
      → delete_policy k token id w ≡ (
        ok tt,
        record (gated k w) { own = record w.own { policies = without id w.own.policies } },
      )
  unfolding delete_policy
  delete_policy-passed k token id w user h there =
      ap
        (λ (g : Result Claims × State N). elim g.0 [
          | ok _ ↦
              ((gets (λ (s : Database N). s.policies) >>= λ rows.
              modify (λ (s : Database N). record s { policies = without id s.policies })
              >> (if has_policy id rows then pure tt else raise (http_error 404)))
                g.1)
          | err e ↦ (err e, g.1)
        ])
        (Gate-ok k token w (require_sre k token w) user (require_sre-Gate k token w) h)
      ∙ ground arith

  -- Deleting a policy just after it was created under a new identifier, both by callers that the gate
  -- lets in, succeeds and leaves the table as it was.
  pub delete_policy-create_policy :
      (k : Crypto) (token later_token : String) (p : PolicyIn N) (w : State N) (user other : Claims)
      → has_policy (w.uuid w.made) w.own.policies ≡ false
      → (require_sre k token w).0 ≡ ok user
      → (require_sre k later_token (create_policy k token p w).1).0 ≡ ok other
      → let (r, w') = delete_policy k later_token (w.uuid w.made) (create_policy k token p w).1 in
        (r ≡ ok tt) × (w'.own.policies ≡ w.own.policies)
  delete_policy-create_policy k token later_token p w user other fresh in_now in_later =
      let made = create_policy-passed k token p w user in_now in
      let back = without-fresh (w.uuid w.made) p w.own.policies fresh in
      let gone =
        delete_policy-passed k later_token (w.uuid w.made) (with_policy k p w) other
          (subst
            (λ (c : Result (PolicyRow N) × State N). (require_sre k later_token c.1).0 ≡ ok other)
            made in_later)
          back.1 in
      subst
        (λ (c : Result (PolicyRow N) × State N).
          let (r, w') = delete_policy k later_token (w.uuid w.made) c.1 in
          (r ≡ ok tt) × (w'.own.policies ≡ w.own.policies))
        (sym made)
        (
          ap (λ (d : Result (Unit {0}) × State N). d.0) gone,
          ap (λ (d : Result (Unit {0}) × State N). d.1.own.policies) gone ∙ back.0,
        )
