-- ===== src/Examples/Signing.antt =====
-- A login and the token that it gives, under tokens that spell out their payload.
use hypertrace.Prelude.{
  ◌≡◌, refl, ap, ◌∙◌, String, some, List, [], ◌∷◌, str_eq, lookup, if◌then◌else◌, ◌==◌, arith,
}
use Prim.Native.Char.{Char, code}
use hypertrace.Effects.{World, ok}
use hypertrace.Bff.Auth.{
  Claims, Crypto, Payload, IsSound, authenticate_user, get_current_user, create_access_token, login,
}
use hypertrace.Bff.Auth.Access.{login-get_current_user}
use hypertrace.Examples.{world}

abbrev mark : Char
mark = "'"

abbrev stop : Char
stop = "."

-- A text with a mark before each of its characters, and two stops at its end, before what follows.
spell : String → String → String
spell String.[] rest = String.◌∷◌ stop (String.◌∷◌ stop rest)
spell (String.◌∷◌ c s) rest = String.◌∷◌ mark (String.◌∷◌ c (spell s rest))

abbrev extend : Char → List String → List String
extend c [] = []
extend c (t ∷ ts) = String.◌∷◌ c t ∷ ts

-- The texts that a text spells.
spelled : String → List String
spelled String.[] = []
spelled (String.◌∷◌ m String.[]) = []
spelled (String.◌∷◌ m (String.◌∷◌ c s)) =
    let rest = spelled s in if code m == b'.' then String.[] ∷ rest else extend c rest

spelled-spell : (s rest : String) → spelled (spell s rest) ≡ s ∷ spelled rest
unfolding spelled spell
spelled-spell String.[] rest = refl
spelled-spell (String.◌∷◌ c s) rest = ap (extend c) (spelled-spell s rest)

signed : Payload → String
signed [] = String.[]
signed ((key, value) ∷ rest) = spell key (spell value (signed rest))

pairs : List String → Payload
pairs [] = []
pairs (key ∷ []) = []
pairs (key ∷ value ∷ rest) = (key, value) ∷ pairs rest

pairs-signed : (payload : Payload) → pairs (spelled (signed payload)) ≡ payload
unfolding pairs spelled signed
pairs-signed [] = refl
pairs-signed ((key, value) ∷ rest) =
    ap pairs (
      spelled-spell key (spell value (signed rest))
      ∙ ap (λ ts. key ∷ ts) (spelled-spell value (signed rest)))
    ∙ ap (λ p. (key, value) ∷ p) (pairs-signed rest)

abbrev tokens : Crypto
tokens = record {
  check_password = λ p. str_eq p "hypertrace-dev";
  encode = λ payload expire. signed payload;
  decode = λ at token. some (pairs (spelled token));
}

tokens-IsSound : IsSound tokens
tokens-IsSound = record { decode-encode = λ at expire payload soon. ap some (pairs-signed payload) }

abbrev before : World (Unit {0}) (Unit {0})
before = world tt

abbrev token : String
token = signed (("sub", "finance") ∷ ("role", "finance") ∷ [])

login-get_current_user_example :
    (user : Claims) × (authenticate_user tokens "finance" "hypertrace-dev" ≡ some user)
    × ((get_current_user tokens token before).0 ≡ ok user)
unfolding login create_access_token authenticate_user lookup
login-get_current_user_example =
    login-get_current_user tokens tokens-IsSound "finance" "hypertrace-dev" token before before refl
      (omega arith)
