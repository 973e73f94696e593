-- ===== src/Jwt/Verified.antt =====
-- What the users' middleware lets pass.
use saimiris_gateway.Prelude.{
  ℕ, String, Bool, true, false, Option, none, some, List, ◌++◌, ◌≡◌, refl, sym, subst, ◌⊎◌, inl,
  inr, Result, ok, err, ok_or, ◌>>=◌, >>=-eq-ok, if◌then◌else◌,
}
use saimiris_gateway.Prelude.Map.{lookup}
use saimiris_gateway.App.{AppState}
use saimiris_gateway.Json.{Value}
use saimiris_gateway.Handlers.Agents.{bearer}
use saimiris_gateway.Jwt.{
  invalid_token, Algorithm, AuthInfo, Message, AuthorizationError, issuer, rs256, rs384, rs512,
  es256, es384, hs256, hs384, hs512, ps256, ps384, ps512, ed_dsa, extract_bearer_token,
}
use saimiris_gateway.Jwt.Keys.{KeyMaker, HttpReply}
use saimiris_gateway.Jwt.Validator.{
  Header, JsonWebToken, JwtValidator, validate_jwt, validation_for, accepted_algorithm,
  create_auth_info, map_err,
}
use saimiris_gateway.Jwt.Cache.{JwksCache, get_or_create}
use saimiris_gateway.Jwt.Bearer.{extract_bearer_token_iff}
use saimiris_gateway.Jwt.Middleware.{dummy_auth, check_token, jwt_middleware}

abbrev pub Asymmetric : Algorithm → Type 0
Asymmetric a = (a ≡ rs256) ⊎ (a ≡ rs384) ⊎ (a ≡ rs512) ⊎ (a ≡ es256) ⊎ (a ≡ es384)

module _ {Key E : Type 0} (jwt : JsonWebToken Key E) where
  -- The token was decoded with the key of the validator that its header names, for the algorithm of
  -- the header, which is one with a public key, and for the issuer of the configuration; the
  -- information is that of its claims.
  pub record Verified (state : AppState) (now : ℕ) (validator : JwtValidator Key) (token : List ℕ)
      (info : AuthInfo) : Type 0 where
    pub header : Header
    pub kid : String
    pub key : Key
    pub iss : String
    pub claims : Value
    pub has_header : jwt.decode_header token ≡ ok header
    pub names_key : header.kid ≡ some kid
    pub has_key : lookup kid validator.jwks ≡ some key
    pub is_asymmetric : Asymmetric header.alg
    pub is_configured : state.auth0_issuer ≡ some iss
    pub is_decoded : jwt.decode now token key (validation_for header.alg iss) ≡ ok claims
    pub is_info : info ≡ create_auth_info claims

  map_err_ok :
      {A : Type 0} (message : E → Message E) (r : Result E A) (a : A)
      → map_err message r ≡ ok a
      → r ≡ ok a
  map_err_ok message (ok b) a h = cc
  map_err_ok message (err e) a h = absurd cc

  ok_or_ok : {F A : Type 0} (o : Option A) (e : F) (a : A) → ok_or o e ≡ ok a → o ≡ some a
  ok_or_ok (some b) e a h = cc
  ok_or_ok none e a h = absurd cc

  accepted : (a b : Algorithm) → accepted_algorithm {E = E} a ≡ ok b → (a ≡ b) × Asymmetric a
  unfolding accepted_algorithm
  accepted hs256 b h = absurd cc
  accepted hs384 b h = absurd cc
  accepted hs512 b h = absurd cc
  accepted es256 b h = (cc, inr (inr (inr (inl refl))))
  accepted es384 b h = (cc, inr (inr (inr (inr refl))))
  accepted rs256 b h = (cc, inl refl)
  accepted rs384 b h = (cc, inr (inl refl))
  accepted rs512 b h = (cc, inr (inr (inl refl)))
  accepted ps256 b h = absurd cc
  accepted ps384 b h = absurd cc
  accepted ps512 b h = absurd cc
  accepted ed_dsa b h = absurd cc

  decoded_claims :
      (state : AppState) (now : ℕ) (token : List ℕ) (key : Key) (a : Algorithm) (info : AuthInfo)
      → (accepted_algorithm {E = E} a >>= λ algorithm. issuer state >>= λ iss.
          map_err invalid_token (jwt.decode now token key (validation_for algorithm iss))
          >>= λ claims. ok (create_auth_info claims))
        ≡ ok info
      → (iss : String) × (claims : Value) × Asymmetric a
        × (state.auth0_issuer ≡ some iss)
        × (jwt.decode now token key (validation_for a iss) ≡ ok claims)
        × (info ≡ create_auth_info claims)
  unfolding issuer
  decoded_claims state now token key a info h =
      let (algorithm, h1, k1) = >>=-eq-ok (accepted_algorithm a) _ h in
      let (iss, h2, k2) = >>=-eq-ok (issuer state) _ k1 in
      let (same, asymmetric) = accepted a algorithm h1 in
      let (claims, h3, k3) =
        >>=-eq-ok (map_err invalid_token (jwt.decode now token key (validation_for algorithm iss)))
          _ k2 in
      (
        iss,
        claims,
        asymmetric,
        ok_or_ok state.auth0_issuer _ iss h2,
        subst (λ b. jwt.decode now token key (validation_for b iss) ≡ ok claims) (sym same)
            (map_err_ok invalid_token _ claims h3),
        cc,
      )

  validate_jwt-Verified :
      (state : AppState) (now : ℕ) (validator : JwtValidator Key) (token : List ℕ) (info : AuthInfo)
      → validate_jwt jwt validator state now token ≡ ok info
      → Verified state now validator token info
  unfolding validate_jwt
  validate_jwt-Verified state now validator token info h =
      let (header, h1, k1) = >>=-eq-ok (map_err _ (jwt.decode_header token)) _ h in
      let (kid, h2, k2) = >>=-eq-ok (ok_or header.kid _) _ k1 in
      let (key, h3, k3) = >>=-eq-ok (ok_or (lookup kid validator.jwks) _) _ k2 in
      let (iss, claims, asymmetric, configured, decoded, made) =
        decoded_claims state now token key header.alg info k3 in
      record {
        header = header;
        kid = kid;
        key = key;
        iss = iss;
        claims = claims;
        has_header = map_err_ok _ (jwt.decode_header token) header h1;
        names_key = ok_or_ok header.kid _ kid h2;
        has_key = ok_or_ok (lookup kid validator.jwks) _ key h3;
        is_asymmetric = asymmetric;
        is_configured = configured;
        is_decoded = decoded;
        is_info = made;
      }

  module _ (keys : KeyMaker Key) (others : JwksCache Key → JwksCache Key)
      (send : String → HttpReply E) (state : AppState) (authorization : Option (List ℕ)) where
    passed :
        (decoded : ℕ) (b : Bool)
        (found : Result (AuthorizationError E) (JwtValidator Key) × JwksCache Key)
        (c c' : JwksCache Key) (info : AuthInfo)
        → ◌≡◌ {A = Result (AuthorizationError E) AuthInfo × JwksCache Key}
            (if b
              then (ok dummy_auth, c)
              else (check_token keys jwt state authorization decoded found.0, found.1))
            (ok info, c')
        → ((b ≡ true) × (info ≡ dummy_auth))
          ⊎ ((b ≡ false)
              × (check_token keys jwt state authorization decoded found.0 ≡ ok info)
              × (found.1 ≡ c'))
    passed decoded true found c c' info h = inl (refl, cc)
    passed decoded false found c c' info h = inr (refl, cc, cc)

    -- What stands behind a request that goes on with some information.
    abbrev pub Passes : ℕ → ℕ → ℕ → JwksCache Key → JwksCache Key → AuthInfo → Type 0
    Passes now written decoded c c' info =
        ((state.bypass_jwt_validation ≡ true) × (info ≡ dummy_auth))
        ⊎ ((state.bypass_jwt_validation ≡ false)
            × (validator : JwtValidator Key) × (token : List ℕ) × (get_or_create keys others send
                  state now written c
                ≡ (ok validator, c'))
            × (authorization ≡ some (bearer ++ token))
            × Verified state decoded validator token info)

    -- A request that passes either meets a gateway told to bypass the validation, and then goes on as
    -- the test user, or it has a token in its header that was decoded, for the configured issuer and
    -- an algorithm with a public key, with the key that the token names in the key set, and it goes
    -- on with the token's claims.
    pub jwt_middleware-Verified :
        (now written decoded : ℕ) (c c' : JwksCache Key) (info : AuthInfo)
        → jwt_middleware keys jwt others send state authorization (now, written, decoded) c
          ≡ (ok info, c')
        → Passes now written decoded c c' info
    unfolding jwt_middleware check_token
    jwt_middleware-Verified now written decoded c c' info h =
        elim (passed decoded state.bypass_jwt_validation
          (get_or_create keys others send state now written c) c c' info h) [
            | inl e ↦ inl e
            | inr (e, k, l) ↦
                let (validator, h1, k1) =
                  >>=-eq-ok (get_or_create keys others send state now written c).0 _ k in
                let (token, h2, k2) = >>=-eq-ok (extract_bearer_token authorization) _ k1 in
                inr (
                  e,
                  validator,
                  token,
                  rw (sym h1, sym l) refl,
                  (extract_bearer_token_iff E authorization token).0 h2,
                  validate_jwt-Verified state decoded validator token info k2,
                )
          ]
