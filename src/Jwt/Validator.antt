-- ===== src/Jwt/Validator.antt =====
-- src/jwt.rs: a token is decoded with the key that its header names. The decoding, which checks the
-- signature, the issuer and the times, is the crate jsonwebtoken's.
use Prim.Native.Char.{Char, code}
use saimiris_gateway.Prelude.{
  ℕ, String, Bool, false, Option, none, some, List, [], ◌∷◌, ◌==◌, if◌then◌else◌, Result, ok, err,
  ◌>>=◌, ok_or,
}
use saimiris_gateway.Prelude.Map.{Map, lookup}
use saimiris_gateway.Json.{
  Value, null, bool, number, string, array, object, elements, index, as_str,
}
use saimiris_gateway.App.{AppState}
use saimiris_gateway.Jwt.{
  Algorithm, AuthInfo, Message, AuthorizationError, with_status, issuer, invalid_header, no_kid,
  unknown_key, unsupported_algorithm, invalid_token, hs256, hs384, hs512, es256, es384, rs256,
  rs384, rs512, ps256, ps384, ps512, ed_dsa,
}

pub record Header : Type 0 where
  pub alg : Algorithm
  pub kid : Option String

pub record Validation : Type 0 where
  pub algorithm : Algorithm
  pub issuers : List String
  pub validate_aud : Bool

-- `decode` reads the clock for the expiry: `decode now token key validation`.
pub record JsonWebToken (Key E : Type 0) : Type 0 where
  pub decode_header : List ℕ → Result E Header
  pub decode : ℕ → List ℕ → Key → Validation → Result E Value

pub record JwtValidator (Key : Type 0) : Type 0 where
  pub jwks : Map Key

abbrev pub push : Char → List String → List String
push c [] = String.◌∷◌ c "" ∷ []
push c (word ∷ words) = String.◌∷◌ c word ∷ words

-- `s.split(' ')`
unfoldable pub split_spaces : String → List String
split_spaces String.[] = "" ∷ []
split_spaces (String.◌∷◌ c s) =
    let words = split_spaces s in if code c == b' ' then "" ∷ words else push c words

-- `filter_map(|v| v.as_str())`
abbrev pub strings : List Value → List String
strings [] = []
strings (v ∷ vs) = elim (as_str v) [ some s ↦ s ∷ strings vs | none ↦ strings vs ]

abbrev pub unwrap_or_default : Option String → String
unwrap_or_default (some s) = s
unwrap_or_default none = ""

abbrev pub scopes_of : Option String → List String
scopes_of (some s) = split_spaces s
scopes_of none = []

abbrev pub audience_of : Value → List String
audience_of null = []
audience_of (bool b) = []
audience_of (number n) = []
audience_of (string s) = s ∷ []
audience_of (array vs) = strings (elements vs)
audience_of (object fields) = []

unfoldable pub create_auth_info : Value → AuthInfo
create_auth_info claims = record {
  sub = unwrap_or_default (as_str (index "sub" claims));
  email = as_str (index "email" claims);
  client_id = as_str (index "client_id" claims);
  organization_id = as_str (index "organization_id" claims);
  scopes = scopes_of (as_str (index "scope" claims));
  audience = audience_of (index "aud" claims);
}

abbrev pub validation_for : Algorithm → String → Validation
validation_for algorithm iss = record {
  algorithm = algorithm;
  issuers = iss ∷ [];
  validate_aud = false;
}

module _ {E : Type 0} where
  abbrev pub map_err : {A : Type 0} → (E → Message E) → Result E A → Result (AuthorizationError E) A
  map_err message (ok a) = ok a
  map_err message (err e) = err (with_status (message e) 401)

  -- The `match` on the header's algorithm.
  unfoldable pub accepted_algorithm : Algorithm → Result (AuthorizationError E) Algorithm
  accepted_algorithm rs256 = ok rs256
  accepted_algorithm rs384 = ok rs384
  accepted_algorithm rs512 = ok rs512
  accepted_algorithm es256 = ok es256
  accepted_algorithm es384 = ok es384
  accepted_algorithm hs256 = err (with_status (unsupported_algorithm hs256) 401)
  accepted_algorithm hs384 = err (with_status (unsupported_algorithm hs384) 401)
  accepted_algorithm hs512 = err (with_status (unsupported_algorithm hs512) 401)
  accepted_algorithm ps256 = err (with_status (unsupported_algorithm ps256) 401)
  accepted_algorithm ps384 = err (with_status (unsupported_algorithm ps384) 401)
  accepted_algorithm ps512 = err (with_status (unsupported_algorithm ps512) 401)
  accepted_algorithm ed_dsa = err (with_status (unsupported_algorithm ed_dsa) 401)

  module _ {Key : Type 0} (jwt : JsonWebToken Key E) where
    unfoldable pub validate_jwt :
        JwtValidator Key → AppState → ℕ → List ℕ → Result (AuthorizationError E) AuthInfo
    validate_jwt validator state now token = do
      header ← map_err invalid_header (jwt.decode_header token)
      kid ← ok_or header.kid (with_status no_kid 401)
      key ← ok_or (lookup kid validator.jwks) (with_status unknown_key 401)
      algorithm ← accepted_algorithm header.alg
      iss ← issuer state
      claims ← map_err invalid_token (jwt.decode now token key (validation_for algorithm iss))
      ok (create_auth_info claims)
