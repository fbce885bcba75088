-- ===== src/Bff/Auth.antt =====
-- services/api-bff/app/users.py and the authentication of services/api-bff/app/main.py. The
-- password hash and the tokens are those of the packages bcrypt and jose, a parameter.
pub mod Access
use hypertrace.Prelude.{
  ℕ, ◌+◌, ◌*◌, ◌<◌, ◌≡◌, String, Bool, true, false, not, Option, none, some, str_eq, Dict, lookup,
  List, [], ◌∷◌, if◌then◌else◌,
}
use hypertrace.Effects.{
  Exec, pure, raise, or_raise, now, minutes, http_error, key_error, ◌>>=◌, ◌>>◌,
}

-- A user, as `authenticate_user` and `get_current_user` give it.
pub record Claims : Type 0 where
  pub username : String
  pub role : String

-- What is signed into a token beside its expiry: texts by their keys.
abbrev pub Payload : Type 0
Payload = Dict String

-- `bcrypt.checkpw` against the one hash of the module, `jwt.encode` of a payload with an expiry under
-- `exp`, and `jwt.decode` at a time of the clock, `none` where it raises.
pub record Crypto : Type 0 where
  pub check_password : String → Bool
  pub encode : Payload → ℕ → String
  pub decode : ℕ → String → Option Payload

abbrev pub token_expire_hours : ℕ
token_expire_hours = 8

-- `_USERS`, without the hash that all users share.
abbrev pub users : Dict Claims
users =
    ("sre", record { username = "sre"; role = "sre" })
    ∷ ("finance", record { username = "finance"; role = "finance" })
    ∷ []

-- A token that was signed here is read back as its payload until it expires.
pub record IsSound (k : Crypto) : Type 0 where
  pub decode-encode :
      (at expire : ℕ) (payload : Payload)
      → at < expire
      → k.decode at (k.encode payload expire) ≡ some payload

-- `{"username": payload["sub"], "role": payload["role"]}`, which raises where a key is missing.
unfoldable pub claims_of : Payload → Option Claims
claims_of payload = elim (lookup "sub" payload) [
  | none ↦ none
  | some username ↦ elim (lookup "role" payload) [
    | none ↦ none
    | some role ↦ some (record { username = username; role = role })
  ]
]

-- The user that a token stands for at a time.
abbrev pub user_of : Crypto → ℕ → String → Option Claims
user_of k at token = elim (k.decode at token) [ none ↦ none | some payload ↦ claims_of payload ]

module _ (k : Crypto) where
  unfoldable pub authenticate_user : String → String → Option Claims
  authenticate_user username password = elim (lookup username users) [
    | none ↦ none
    | some user ↦ if k.check_password password then some user else none
  ]

  -- `get_current_user`
  unfoldable pub get_current_user : {M S : Type 0} → String → Exec M S Claims
  get_current_user token = do
    at ← now
    payload ← or_raise (k.decode at token) (http_error 401)
    or_raise (claims_of payload) key_error

  -- `create_access_token`
  unfoldable pub create_access_token : {M S : Type 0} → String → String → Exec M S String
  create_access_token subject role = do
    at ← now
    let payload = ("sub", subject) ∷ ("role", role) ∷ []
    pure (k.encode payload (at + minutes (token_expire_hours * 60)))

  unfoldable pub login : {M S : Type 0} → String → String → Exec M S String
  login username password = do
    user ← or_raise (authenticate_user username password) (http_error 401)
    create_access_token user.username user.role

  -- `require_sre`, with the user that it depends on.
  unfoldable pub require_sre : {M S : Type 0} → String → Exec M S Claims
  require_sre token = get_current_user token >>= λ user.
      if not (str_eq user.role "sre") then raise (http_error 403) else pure user
