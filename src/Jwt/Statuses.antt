-- ===== src/Jwt/Statuses.antt =====
-- The answers of the users' middleware to requests that it stops.
use saimiris_gateway.Prelude.{
  ℕ, String, Bool, true, false, Option, none, some, List, ◌≡◌, refl, subst, ◌⊎◌, inl, inr, Result,
  ok, err, ok_or, ◌>>=◌, Bool-cases, Result-cases, if◌then◌else◌, leb, ◌&&◌, is_empty,
}
use saimiris_gateway.Prelude.Map.{lookup}
use saimiris_gateway.App.{AppState}
use saimiris_gateway.Json.{index, as_array}
use saimiris_gateway.Jwt.{
  Algorithm, AuthInfo, Message, AuthorizationError, with_status, issuer, jwks_uri, into_response,
  extract_bearer_token, hs256, hs384, hs512, es256, es384, rs256, rs384, rs512, ps256, ps384, ps512,
  ed_dsa,
}
use saimiris_gateway.Jwt.Keys.{
  KeyMaker, HttpReply, send_failed, responded, read_reply, fetch_jwks, parse_jwks, keys_of,
}
use saimiris_gateway.Jwt.Validator.{
  JsonWebToken, JwtValidator, validate_jwt, accepted_algorithm, map_err,
}
use saimiris_gateway.Jwt.Cache.{
  JwksCache, get_or_create, should_refresh, new_validator, store_validator, cached,
}
use saimiris_gateway.Jwt.Middleware.{dummy_auth, check_token, jwt_middleware}

-- The gateway lacks a part of its configuration.
abbrev pub Unconfigured : AppState → Type 0
Unconfigured state = (state.auth0_jwks_uri ≡ none) ⊎ (state.auth0_issuer ≡ none)

module _ (E : Type 0) (state : AppState) where
  -- An error is the client's, or the configuration's.
  abbrev pub Answered : AuthorizationError E → Type 0
  Answered e = (e.status_code ≡ 401) ⊎ ((e.status_code ≡ 500) × Unconfigured state)

  abbrev Fails : {A : Type 0} → Result (AuthorizationError E) A → Type 0
  Fails (ok a) = Unit
  Fails (err e) = Answered e

  bind-Fails :
      {A B : Type 0} (r : Result (AuthorizationError E) A) (f : A → Result (AuthorizationError E) B)
      → Fails r
      → ((a : A) → Fails (f a))
      → Fails (r >>= f)
  bind-Fails (ok a) f h k = k a
  bind-Fails (err e) f h k = h

  ok_or-Fails : {A : Type 0} (o : Option A) (m : Message E) → Fails (ok_or o (with_status m 401))
  ok_or-Fails (some a) m = tt
  ok_or-Fails none m = inl refl

  map_err-Fails : {A : Type 0} (m : E → Message E) (r : Result E A) → Fails (map_err m r)
  map_err-Fails m (ok a) = tt
  map_err-Fails m (err e) = inl refl

  configured-Fails :
      {A : Type 0} (o : Option A) (m : Message E)
      → (o ≡ none → Unconfigured state)
      → Fails (ok_or o (with_status m 500))
  configured-Fails (some a) m h = tt
  configured-Fails none m h = inr (refl, h refl)

  if-Fails :
      {A : Type 0} (b : Bool) (a : A) (m : Message E)
      → Fails (if b then ok a else err (with_status m 401))
  if-Fails true a m = tt
  if-Fails false a m = inl refl

  else-Fails :
      {A : Type 0} (b : Bool) (a : A) (m : Message E)
      → Fails (if b then err (with_status m 401) else ok a)
  else-Fails true a m = inl refl
  else-Fails false a m = tt

  extract_bearer_token-Fails : (h : Option (List ℕ)) → Fails (extract_bearer_token {E = E} h)
  unfolding extract_bearer_token
  extract_bearer_token-Fails none = inl refl
  extract_bearer_token-Fails (some s) = if-Fails _ _ _

  accepted_algorithm-Fails : (a : Algorithm) → Fails (accepted_algorithm {E = E} a)
  unfolding accepted_algorithm
  accepted_algorithm-Fails hs256 = inl refl
  accepted_algorithm-Fails hs384 = inl refl
  accepted_algorithm-Fails hs512 = inl refl
  accepted_algorithm-Fails es256 = tt
  accepted_algorithm-Fails es384 = tt
  accepted_algorithm-Fails rs256 = tt
  accepted_algorithm-Fails rs384 = tt
  accepted_algorithm-Fails rs512 = tt
  accepted_algorithm-Fails ps256 = inl refl
  accepted_algorithm-Fails ps384 = inl refl
  accepted_algorithm-Fails ps512 = inl refl
  accepted_algorithm-Fails ed_dsa = inl refl

  module _ {Key : Type 0} (keys : KeyMaker Key) (jwt : JsonWebToken Key E) where
    read_reply-Fails : (uri : String) (r : HttpReply E) → Fails (read_reply keys uri r)
    unfolding parse_jwks
    read_reply-Fails uri (send_failed e) = inl refl
    read_reply-Fails uri (responded status body) =
        elim (Bool-cases (leb 200 status && leb status 299)) [
          | inr e ↦ rw e (inl refl)
          | inl e ↦ rw e (elim (Result-cases body) [
            | inl (jwks, k) ↦
                rw k (else-Fails (is_empty (keys_of keys (as_array (index "keys" jwks)))) _ _)
            | inr (x, k) ↦ rw k (inl refl)
          ])
        ]

    new_validator-Fails : (send : String → HttpReply E) → Fails (new_validator keys state send)
    unfolding new_validator fetch_jwks jwks_uri
    new_validator-Fails send =
        bind-Fails (fetch_jwks keys state send) _
          (bind-Fails (jwks_uri state) _ (configured-Fails state.auth0_jwks_uri _ inl)
            (λ uri. read_reply-Fails uri (send uri)))
          (λ _. tt)

    stored-Fails :
        (others : JwksCache Key → JwksCache Key) (send : String → HttpReply E)
        (r : Result (AuthorizationError E) (JwtValidator Key)) (written : ℕ) (c : JwksCache Key)
        → Fails r
        → Fails (store_validator keys others send r written c).0
    stored-Fails others send (ok v) written c h = tt
    stored-Fails others send (err e) written c h = h

    cached-Fails :
        (others : JwksCache Key → JwksCache Key) (send : String → HttpReply E)
        (o : Option (JwtValidator Key)) (c : JwksCache Key)
        → Fails (cached keys others send state o c).0
    cached-Fails others send (some v) c = tt
    cached-Fails others send none c = new_validator-Fails send

    get_or_create-Fails :
        (others : JwksCache Key → JwksCache Key) (send : String → HttpReply E) (now written : ℕ)
        (c : JwksCache Key)
        → Fails (get_or_create keys others send state now written c).0
    unfolding get_or_create
    get_or_create-Fails others send now written c =
        elim (Bool-cases (should_refresh now c.last_jwks_refresh)) [
          | inl e ↦ rw e (
              stored-Fails others send (new_validator keys state send) written (others c)
                (new_validator-Fails send))
          | inr e ↦ rw e (cached-Fails others send (others c).jwks_cache (others c))
        ]

    validate_jwt-Fails :
        (validator : JwtValidator Key) (now : ℕ) (token : List ℕ)
        → Fails (validate_jwt jwt validator state now token)
    unfolding validate_jwt issuer
    validate_jwt-Fails validator now token =
        bind-Fails (map_err _ (jwt.decode_header token)) _
          (map_err-Fails _ (jwt.decode_header token))
          (λ header. bind-Fails (ok_or header.kid _) _ (ok_or-Fails header.kid _) (λ kid.
            bind-Fails (ok_or (lookup kid validator.jwks) _) _
              (ok_or-Fails (lookup kid validator.jwks) _)
              (λ key.
                bind-Fails (accepted_algorithm header.alg) _ (accepted_algorithm-Fails header.alg)
                  (λ algorithm.
                    bind-Fails (issuer state) _ (configured-Fails state.auth0_issuer _ inr) (λ iss.
                      bind-Fails (map_err _ (jwt.decode now token key _)) _ (map_err-Fails _ _)
                        (λ _. tt))))))

    same_status : (e : AuthorizationError E) → Answered e → (into_response e).0 ≡ e.status_code
    unfolding into_response
    same_status e (inl h) = rw h refl
    same_status e (inr (h, _)) = rw h refl

    failed :
        (e : AuthorizationError E) (r : Result (AuthorizationError E) AuthInfo)
        → Fails r
        → r ≡ err e
        → Answered e × ((into_response e).0 ≡ e.status_code)
    failed e (ok a) h k = absurd cc
    failed e (err x) h k =
        let same : x ≡ e = cc in
        let answered = subst Answered same h in (answered, same_status e answered)

    stopped :
        (b : Bool) (r : Result (AuthorizationError E) AuthInfo) (c d c' : JwksCache Key)
        (e : AuthorizationError E) (passed : Result (AuthorizationError E) AuthInfo)
        → Fails r
        → Fails passed
        → ◌≡◌ {A = Result (AuthorizationError E) AuthInfo × JwksCache Key}
            (if b then (passed, c) else (r, d))
            (err e, c')
        → Answered e × ((into_response e).0 ≡ e.status_code)
    stopped true r c d c' e passed h k eq = failed e passed k cc
    stopped false r c d c' e passed h k eq = failed e r h cc

    -- A request that the middleware stops is answered with 401, or with 500 where the gateway has no
    -- key server or no issuer configured; and that status is the one of the response.
    pub jwt_middleware-Answered :
        (others : JwksCache Key → JwksCache Key) (send : String → HttpReply E)
        (authorization : Option (List ℕ)) (now written decoded : ℕ) (c c' : JwksCache Key)
        (e : AuthorizationError E)
        → jwt_middleware keys jwt others send state authorization (now, written, decoded) c
          ≡ (err e, c')
        → Answered e × ((into_response e).0 ≡ e.status_code)
    unfolding jwt_middleware check_token into_response
    jwt_middleware-Answered others send authorization now written decoded c c' e h =
        let found = get_or_create keys others send state now written c in
        stopped state.bypass_jwt_validation
          (check_token keys jwt state authorization decoded found.0) c found.1 c' e (ok dummy_auth)
          (bind-Fails found.0 _ (get_or_create-Fails others send now written c) (λ validator.
            bind-Fails (extract_bearer_token authorization) _
              (extract_bearer_token-Fails authorization)
              (λ token. validate_jwt-Fails validator decoded token)))
          tt h
