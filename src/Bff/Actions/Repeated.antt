-- ===== src/Bff/Actions/Repeated.antt =====
-- A rollback that is asked for again.
use hypertrace.Prelude.{
  String, ◌≡◌, refl, ap, ◌∙◌, sym, Bool, false, ◌&&◌, some, get_or, List, [], ◌∷◌, ◌++◌, All,
  All-map, select, first, sort_by, eq_iff, arith,
}
use mathlib.Core.Path.{subst}
use hypertrace.Effects.{Result, ok, err}
use hypertrace.Tables.{ActionRow}
use hypertrace.Bff.Auth.{Crypto, Claims, require_sre, get_current_user, user_of}
use hypertrace.Bff.Auth.Access.{gated}
use hypertrace.Bff.Actions.{
  State, latest, is_executed, is_about, is_later, ActionDispatched, rollback_request,
  roll_back_gated, rollback_action,
}
use hypertrace.Bff.Actions.Approval.{Dispatched}
use hypertrace.Bff.Actions.Reversal.{roll_back-Dispatched}

select-append_none :
    {A : Type 0} (p : A → Bool) (xs ys : List A)
    → All (λ y. p y ≡ false) ys
    → select p (xs ++ ys) ≡ select p xs
unfolding select
select-append_none p [] [] h = refl
select-append_none p [] (y ∷ ys) h = rw h.0 (select-append_none p [] ys h.1)
select-append_none p (x ∷ xs) ys h = rw (select-append_none p xs ys h) refl

-- Rows that executed nothing do not change what an endpoint finds.
latest-append :
    (anomaly_id : String) (rows later : List ActionRow)
    → All (λ r. is_executed r.result ≡ false) later
    → latest is_executed anomaly_id (rows ++ later) ≡ latest is_executed anomaly_id rows
unfolding latest
latest-append anomaly_id rows later h =
    ap (λ rs. first (sort_by is_later rs))
      (select-append_none (λ r. is_about anomaly_id r.anomaly_id && is_executed r.result) rows later
        (All-map (λ r. is_executed r.result ≡ false)
          (λ r. is_about anomaly_id r.anomaly_id && is_executed r.result ≡ false) later
          (λ r e. ground arith) h))

module _ {N : Type 0} where
  require_sre-passes :
      (k : Crypto) (token : String) (user : Claims) (w : State N)
      → user_of k (w.clock w.reads) token ≡ some user
      → user.role ≡ "sre"
      → require_sre k token w ≡ (ok user, gated k w)
  unfolding require_sre get_current_user
  require_sre-passes k token user w valid role = ground (arith, eq_iff user.role "sre")

  -- What an executed row was rolled back to does not matter to the endpoint: whatever rows that
  -- executed nothing follow in the ledger, one that says `rolled_back` among them, a user with the
  -- role `sre` who asks again has the same row rolled back again: a second request with it as its target
  -- is delivered, or a `dispatch_failed` row is written.
  pub rollback_action_again :
      (k : Crypto) (token anomaly_id : String) (user : Claims) (rows later : List ActionRow)
      (row : ActionRow) (w : State N)
      → latest is_executed anomaly_id rows ≡ some row
      → All (λ r. is_executed r.result ≡ false) later
      → w.own.actions_log ≡ rows ++ later
      → user_of k (w.clock w.reads) token ≡ some user
      → user.role ≡ "sre"
      → let (r, w') = rollback_action k token anomaly_id w in
        Dispatched anomaly_id "rollback"
          (get_or row.target "")
          (some row.id)
          (some row.id)
          (λ id. rollback_request id anomaly_id row.id)
          (gated k w)
          w'
          r
  unfolding rollback_action roll_back_gated
  rollback_action_again k token anomaly_id user rows later row w found quiet log valid role =
      let still : latest is_executed anomaly_id w.own.actions_log ≡ some row =
        ap (latest is_executed anomaly_id) log
        ∙ latest-append anomaly_id rows later quiet
        ∙ found in
      subst
        (λ g.
          let p : Result ActionDispatched × State N = elim g.0 [
            | ok _ ↦ roll_back_gated anomaly_id g.1
            | err e ↦ (err e, g.1)
          ] in
          Dispatched anomaly_id "rollback" (get_or row.target "") (some row.id) (some row.id)
            (λ id. rollback_request id anomaly_id row.id) (gated k w) p.1 p.0)
        (sym (require_sre-passes k token user w valid role))
        (rw still (roll_back-Dispatched anomaly_id row (gated k w)))
