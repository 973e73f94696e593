-- ===== src/Jwt.antt =====
-- src/jwt.rs: what the authentication of users answers with. The errors of the HTTP client and of
-- the crate jsonwebtoken, which the messages quote, are a parameter.
pub mod Keys
pub mod Cache
pub mod Validator
pub mod Middleware
pub mod Bearer
pub mod Scopes
pub mod KeySet
pub mod Locks
pub mod Verified
pub mod Statuses
use saimiris_gateway.Prelude.{
  ℕ, zero, suc, ◌-◌, String, Bool, Option, none, some, List, [], ◌∷◌, ◌&&◌, if◌then◌else◌, leb,
  ◌==◌, Result, ok, err, ok_or, codes,
}
use saimiris_gateway.App.{AppState}

-- The algorithms that jsonwebtoken knows.
pub data Algorithm : Type 0 where
  hs256 hs384 hs512 es256 es384 rs256 rs384 rs512 ps256 ps384 ps512 ed_dsa : Algorithm

pub record AuthInfo : Type 0 where
  pub sub : String
  pub email : Option String
  pub client_id : Option String
  pub organization_id : Option String
  pub scopes : List String
  pub audience : List String

pub data Message (E : Type 0) : Type 0 where
  jwks_uri_missing issuer_missing header_missing no_bearer no_valid_keys no_kid unknown_key :
      Message E
  fetch_failed : String → E → Message E
  fetch_status : ℕ → Message E
  parse_failed invalid_header invalid_token : E → Message E
  unsupported_algorithm : Algorithm → Message E

pub record AuthorizationError (E : Type 0) : Type 0 where
  pub message : Message E
  pub status_code : ℕ

abbrev pub starts_with : List ℕ → List ℕ → Bool
starts_with [] s = Bool.true
starts_with (c ∷ p) [] = Bool.false
starts_with (c ∷ p) (d ∷ s) = c == d && starts_with p s

abbrev pub drop : ℕ → List ℕ → List ℕ
drop zero s = s
drop (suc n) [] = []
drop (suc n) (c ∷ s) = drop n s

module _ {E : Type 0} where
  abbrev pub new : Message E → AuthorizationError E
  new message = record { message = message; status_code = 403 }

  abbrev pub with_status : Message E → ℕ → AuthorizationError E
  with_status message status_code = record { message = message; status_code = status_code }

  -- The status of the response; `StatusCode::from_u16` takes the codes from 100 to 999.
  unfoldable pub into_response : AuthorizationError E → ℕ × Message E
  into_response e =
      (if leb 100 e.status_code && leb e.status_code 999 then e.status_code else 403, e.message)

  unfoldable pub jwks_uri : AppState → Result (AuthorizationError E) String
  jwks_uri state = ok_or state.auth0_jwks_uri (with_status jwks_uri_missing 500)

  unfoldable pub issuer : AppState → Result (AuthorizationError E) String
  issuer state = ok_or state.auth0_issuer (with_status issuer_missing 500)

  -- A header that is text has ASCII characters only, so the seventh byte is the seventh character.
  unfoldable pub extract_bearer_token : Option (List ℕ) → Result (AuthorizationError E) (List ℕ)
  extract_bearer_token none = err (with_status header_missing 401)
  extract_bearer_token (some auth_header) =
      if starts_with (codes "Bearer ") auth_header
      then ok (drop 7 auth_header)
      else err (with_status no_bearer 401)
