-- ===== src/Bff/Auth/Access.antt =====
-- Who the tokens let in.
use hypertrace.Prelude.{
  ℕ, ◌+◌, ◌*◌, ◌<◌, ◌≡◌, String, none, some, Option-cases, Bool-cases, ◌⊎◌, refl, inl, inr, [], ◌∷◌,
  str_eq, eq_iff, lookup, arith,
}
use mathlib.Core.Path.{subst}
use hypertrace.Effects.{World, Result, ok, err, http_error, key_error, minutes}
use hypertrace.Bff.Auth.{
  Claims, Crypto, Payload, IsSound, claims_of, user_of, authenticate_user, get_current_user,
  create_access_token, login, require_sre, token_expire_hours,
}

-- What is signed for a user is read as that user.
claims_of-payload :
    (user : Claims) → claims_of (("sub", user.username) ∷ ("role", user.role) ∷ []) ≡ some user
unfolding claims_of lookup
claims_of-payload user = refl

module _ {M S : Type 0} (k : Crypto) where
  -- The world at which a token is shown, before eight hours have passed since the login in `w`.
  abbrev pub IsInTime : World M S → World M S → Type 0
  IsInTime w later = later.clock later.reads < w.clock w.reads + minutes (token_expire_hours * 60)

  -- A login that succeeds gives a token that, for eight hours, is read back as the user that the name
  -- and the password stand for, and raises nothing.
  pub login-get_current_user :
      IsSound k
      → (username password token : String) (w later : World M S)
      → (login k username password w).0 ≡ ok token
      → IsInTime w later
      → (user : Claims) × (authenticate_user k username password ≡ some user)
        × ((get_current_user k token later).0 ≡ ok user)
  unfolding login get_current_user create_access_token authenticate_user
  login-get_current_user sound username password token w later h time =
      elim (Option-cases (authenticate_user k username password)) [
        | inl e ↦ ground arith
        | inr (user, e) ↦
            let expire = w.clock w.reads + minutes (token_expire_hours * 60) in
            let payload : Payload = ("sub", user.username) ∷ ("role", user.role) ∷ [] in
            let made : k.encode payload expire ≡ token = ground arith in
            let read = sound.decode-encode (later.clock later.reads) expire payload time in
            let named = claims_of-payload user in (user, e, ground arith)
      ]

  -- The gate of every writing endpoint lets a token through just when it is valid at the time, and
  -- names a user with the role `sre`.
  pub require_sre-role :
      (token : String) (user : Claims) (w : World M S)
      → (require_sre k token w).0 ≡ ok user
      → (user_of k (w.clock w.reads) token ≡ some user) × (user.role ≡ "sre")
  unfolding require_sre get_current_user
  require_sre-role token user w h = elim (Option-cases (k.decode (w.clock w.reads) token)) [
    | inl e ↦ ground arith
    | inr (payload, e) ↦ elim (Option-cases (claims_of payload)) [
      | inl q ↦ ground arith
      | inr (c, q) ↦ (ground arith, ground (arith, eq_iff c.role "sre"))
    ]
  ]

  -- The world after the gate has read the clock.
  abbrev pub gated : World M S → World M S
  gated w = record w { reads = w.reads + 1 }

  -- How the gate ends: refused; with an error, for a valid token whose payload lacks a key; or passed
  -- by a user with the role.
  pub data Gate (token : String) (w : World M S) : Result Claims × World M S → Type 0 where
    refused :
        (code : ℕ) → (code ≡ 401) ⊎ (code ≡ 403) → Gate token w (err (http_error code), gated w)
    unnamed :
        (payload : Payload)
        → k.decode (w.clock w.reads) token ≡ some payload
        → claims_of payload ≡ none
        → Gate token w (err key_error, gated w)
    passed :
        (user : Claims)
        → user_of k (w.clock w.reads) token ≡ some user
        → user.role ≡ "sre"
        → Gate token w (ok user, gated w)

  pub require_sre-Gate : (token : String) (w : World M S) → Gate token w (require_sre k token w)
  unfolding require_sre get_current_user
  require_sre-Gate token w = elim (Option-cases (k.decode (w.clock w.reads) token)) [
    | inl e ↦
        let ends : (err (http_error 401), gated w) ≡ require_sre k token w = ground arith in
        subst (Gate token w) ends (refused 401 (inl refl))
    | inr (payload, d) ↦ elim (Option-cases (claims_of payload)) [
      | inl q ↦
          let ends : (err key_error, gated w) ≡ require_sre k token w = ground arith in
          subst (Gate token w) ends (unnamed payload d q)
      | inr (c, q) ↦
          let e : user_of k (w.clock w.reads) token ≡ some c = rw (user_of, d) q in
          elim (Bool-cases (str_eq c.role "sre")) [
            | inl s ↦
                let ends : (ok c, gated w) ≡ require_sre k token w = ground arith in
                subst (Gate token w) ends (passed c e (ground (arith, eq_iff c.role "sre")))
            | inr s ↦
                let ends : (err (http_error 403), gated w) ≡ require_sre k token w = ground arith in
                subst (Gate token w) ends (refused 403 (inr refl))
          ]
    ]
  ]
