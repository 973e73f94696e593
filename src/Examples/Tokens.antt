-- ===== src/Examples/Tokens.antt =====
-- Tokens, key sets and routes at concrete inputs: one key, and a decoder that accepts it.
use saimiris_gateway.Prelude.{
  ℕ, ◌==◌, String, false, Option, none, some, List, [], ◌∷◌, ◌≡◌, refl, ◌↔◌, ok, err, codes,
  if◌then◌else◌,
}
use saimiris_gateway.Prelude.Map.{lookup, insert}
use saimiris_gateway.App.{AppState}
use saimiris_gateway.Json.{Value, string, array, object, cons, nil, end, field, index, as_array}
use saimiris_gateway.Jwt.{
  AuthInfo, with_status, header_missing, rs256, extract_bearer_token, jwks_uri, issuer,
  into_response,
}
use saimiris_gateway.Jwt.Keys.{
  KeyMaker, HttpReply, responded, insert_key, insert_keys, parse_jwks, fetch_jwks,
}
use saimiris_gateway.Jwt.Validator.{
  JsonWebToken, JwtValidator, split_spaces, create_auth_info, accepted_algorithm, validate_jwt,
}
use saimiris_gateway.Jwt.Cache.{
  JwksCache, empty_cache, should_refresh, set_validator, set_refresh, new_validator, get_or_create,
}
use saimiris_gateway.Jwt.Middleware.{check_token, jwt_middleware}
use saimiris_gateway.Jwt.KeySet.{Reads, listed, parse_jwks-Reads}
use saimiris_gateway.Jwt.Locks.{Reach, start, next, write_cache, write_refresh, get_or_create-Reach}
use saimiris_gateway.Jwt.Verified.{Passes, jwt_middleware-Verified}
use saimiris_gateway.Jwt.Statuses.{Answered, jwt_middleware-Answered}
use saimiris_gateway.Router.{
  Route, find_route, Request, get, reads_user, create_client_app, create_agent_app, create_app,
  run_layers, serve,
}
use saimiris_gateway.Router.Access.{audience, Allowed, serve-Allowed}

abbrev keys : KeyMaker ℕ
keys = record { from_rsa_components = λ n e. some 1; from_ec_components = λ x y. none }

abbrev claims : Value
claims = object (field "sub" (string "user") (field "scope" (string "api:read api:write") end))

abbrev jwt : JsonWebToken ℕ String
jwt = record {
  decode_header = λ token. ok (record { alg = rs256; kid = some "k1" });
  decode = λ now token key validation. if key == 1 then ok claims else err "invalid signature";
}

abbrev jwks : Value
jwks = object (
    field "keys"
      (array (
        cons
          (object (
            field "kid" (string "k1") (
              field "kty" (string "RSA") (field "n" (string "n") (field "e" (string "AQAB") end)))))
          nil))
      end)

abbrev send : String → HttpReply String
send uri = responded 200 (ok jwks)

abbrev state : AppState
state = record {
  agent_key = "key";
  auth0_jwks_uri = some "https://issuer/jwks";
  auth0_issuer = some "https://issuer/";
  bypass_jwt_validation = false;
}

abbrev alone : JwksCache ℕ → JwksCache ℕ
alone c = c

abbrev authorization : Option (List ℕ)
authorization = some (codes "Bearer token")

abbrev info : AuthInfo
info = record {
  sub = "user";
  email = none;
  client_id = none;
  organization_id = none;
  scopes = "api:read" ∷ "api:write" ∷ [];
  audience = [];
}

abbrev validator : JwtValidator ℕ
validator = record { jwks = ("k1", 1) ∷ [] }

abbrev filled : JwksCache ℕ
filled = set_refresh 11 (set_validator validator empty_cache)

parse_jwks-Reads_example :
    Reads keys (listed keys (as_array (index "keys" jwks))) (parse_jwks keys {E = String} jwks)
parse_jwks-Reads_example = parse_jwks-Reads keys String jwks

-- A request that finds the keys a second old.
get_or_create-Reach_example :
    (Reach
      (filled, false)
      ((get_or_create keys alone send state 1000000011 1000000012 filled).1, false))
    × (should_refresh 1000000011 filled.last_jwks_refresh ≡ false
        → (v : JwtValidator ℕ) × (filled.jwks_cache ≡ some v)
          × (get_or_create keys alone send state 1000000011 1000000012 filled ≡ (ok v, filled)))
get_or_create-Reach_example =
    get_or_create-Reach keys alone send state 1000000011 1000000012 filled false
      (next _ _ _ (next _ _ _ (start _) (write_cache validator empty_cache))
        (write_refresh 11 (set_validator validator empty_cache)))
      (start _)

passed :
    jwt_middleware keys jwt alone send state authorization (10, 11, 12) empty_cache
    ≡ (ok info, filled)
unfolding jwt_middleware check_token get_or_create should_refresh new_validator fetch_jwks
    parse_jwks insert_keys insert_key insert jwks_uri issuer extract_bearer_token validate_jwt
    lookup accepted_algorithm create_auth_info split_spaces
passed = refl

jwt_middleware-Verified_example :
    Passes jwt keys alone send state authorization 10 11 12 empty_cache filled info
jwt_middleware-Verified_example =
    jwt_middleware-Verified jwt keys alone send state authorization 10 11 12 empty_cache filled info
      passed

stopped :
    jwt_middleware keys jwt alone send state none (10, 11, 12) empty_cache
    ≡ (err (with_status header_missing 401), filled)
unfolding jwt_middleware check_token get_or_create should_refresh new_validator fetch_jwks
    parse_jwks insert_keys insert_key insert jwks_uri extract_bearer_token
stopped = refl

jwt_middleware-Answered_example :
    Answered String state (with_status header_missing 401)
    × ((into_response {E = String} (with_status header_missing 401)).0 ≡ 401)
jwt_middleware-Answered_example =
    jwt_middleware-Answered String state keys jwt alone send none 10 11 12 empty_cache filled
      (with_status header_missing 401) stopped

abbrev request : Request
request = record { method = get; path = "api" ∷ "user" ∷ "me" ∷ []; authorization = authorization }

served :
    serve keys jwt alone send state (10, 11, 12) empty_cache request ≡ ok (reads_user, some info)
unfolding serve create_app create_client_app create_agent_app run_layers jwt_middleware check_token
    get_or_create should_refresh new_validator fetch_jwks parse_jwks insert_keys insert_key insert
    jwks_uri issuer extract_bearer_token validate_jwt lookup accepted_algorithm create_auth_info
    split_spaces
served = refl

serve-Allowed_example :
    (serve keys jwt alone send state (10, 11, 12) empty_cache request ≡ ok (reads_user, some info))
    ↔ ((r : Route) × (find_route create_app request ≡ some r)
        × (r.operation ≡ reads_user)
        × Allowed keys jwt alone send state
            (10, 11, 12)
            empty_cache
            (audience reads_user)
            request
            (some info))
serve-Allowed_example =
    serve-Allowed keys jwt alone send state (10, 11, 12) empty_cache request reads_user (some info)
