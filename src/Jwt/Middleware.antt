-- ===== src/Jwt/Middleware.antt =====
-- src/jwt.rs: `jwt_middleware`, which puts the user's `AuthInfo` in the request or answers it.
use saimiris_gateway.Prelude.{
  ℕ, String, Option, none, some, List, [], ◌∷◌, if◌then◌else◌, Result, ok, ◌>>=◌,
}
use saimiris_gateway.App.{AppState}
use saimiris_gateway.Jwt.{AuthInfo, AuthorizationError, extract_bearer_token}
use saimiris_gateway.Jwt.Keys.{KeyMaker, HttpReply}
use saimiris_gateway.Jwt.Validator.{JsonWebToken, JwtValidator, validate_jwt}
use saimiris_gateway.Jwt.Cache.{JwksCache, get_or_create}

abbrev pub dummy_auth : AuthInfo
dummy_auth = record {
  sub = "test-user-id";
  email = some "test@example.com";
  client_id = some "test-client";
  organization_id = none;
  scopes = "api:read" ∷ "api:write" ∷ [];
  audience = "https://api.example.com" ∷ [];
}

module _ {Key E : Type 0} (keys : KeyMaker Key) (jwt : JsonWebToken Key E) where
  -- The header is given where it is there and is text. The clock is read when the token is decoded.
  unfoldable pub check_token :
      AppState
      → Option (List ℕ)
      → ℕ
      → Result (AuthorizationError E) (JwtValidator Key)
      → Result (AuthorizationError E) AuthInfo
  check_token state authorization decoded found = do
    validator ← found
    token ← extract_bearer_token authorization
    validate_jwt jwt validator state decoded token

  module _ (others : JwksCache Key → JwksCache Key) (send : String → HttpReply E) where
    -- What the handler is given, or the answer; the three times are those of the look at the cache,
    -- of its write and of the decoding.
    unfoldable pub jwt_middleware :
        AppState
        → Option (List ℕ)
        → ℕ × ℕ × ℕ
        → JwksCache Key
        → Result (AuthorizationError E) AuthInfo × JwksCache Key
    jwt_middleware state authorization (now, written, decoded) c =
        let (found, c') = get_or_create keys others send state now written c in
        if state.bypass_jwt_validation
        then (ok dummy_auth, c)
        else (check_token state authorization decoded found, c')
