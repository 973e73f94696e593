-- ===== src/Jwt/Cache.antt =====
-- src/jwt.rs: the validator that requests share. `JWKS_CACHE` and `LAST_JWKS_REFRESH` have a lock
-- each, so other requests may act between two looks of a request at them.
use saimiris_gateway.Prelude.{
  ℕ, ◌-◌, ◌*◌, String, Bool, true, Option, none, some, if◌then◌else◌, ltb, Result, ok, err, ◌>>=◌,
}
use saimiris_gateway.App.{AppState}
use saimiris_gateway.Jwt.{AuthorizationError}
use saimiris_gateway.Jwt.Keys.{KeyMaker, HttpReply, fetch_jwks}
use saimiris_gateway.Jwt.Validator.{JwtValidator}

-- Twelve hours, in nanoseconds.
abbrev pub jwks_cache_duration : ℕ
jwks_cache_duration = 12 * 60 * 60 * 1000000000

-- `elapsed` is 0 for an instant still to come.
unfoldable pub should_refresh : ℕ → Option ℕ → Bool
should_refresh now none = true
should_refresh now (some time) = ltb jwks_cache_duration (now - time)

pub record JwksCache (Key : Type 0) : Type 0 where
  pub jwks_cache : Option (JwtValidator Key)
  pub last_jwks_refresh : Option ℕ

module _ {Key : Type 0} where
  abbrev pub empty_cache : JwksCache Key
  empty_cache = record { jwks_cache = none; last_jwks_refresh = none }

  abbrev pub set_validator : JwtValidator Key → JwksCache Key → JwksCache Key
  set_validator v c = record c { jwks_cache = some v }

  abbrev pub set_refresh : ℕ → JwksCache Key → JwksCache Key
  set_refresh time c = record c { last_jwks_refresh = some time }

  module _ {E : Type 0} (keys : KeyMaker Key) where
    unfoldable pub new_validator :
        AppState → (String → HttpReply E) → Result (AuthorizationError E) (JwtValidator Key)
    new_validator state send = do jwks ← fetch_jwks keys state send; ok (record { jwks = jwks })

    -- What other requests do between the first look and the next is a parameter; so are the answer of
    -- the key server and the clock at the look and at the write. The lock of the cache is held through
    -- both writes, and nothing else writes, so no other request does in between.
    module _ (others : JwksCache Key → JwksCache Key) (send : String → HttpReply E) where
      abbrev pub store_validator :
          Result (AuthorizationError E) (JwtValidator Key)
          → ℕ
          → JwksCache Key
          → Result (AuthorizationError E) (JwtValidator Key) × JwksCache Key
      store_validator (err e) written c = (err e, c)
      store_validator (ok v) written c = (ok v, set_refresh written (set_validator v c))

      abbrev pub cached :
          AppState
          → Option (JwtValidator Key)
          → JwksCache Key
          → Result (AuthorizationError E) (JwtValidator Key) × JwksCache Key
      cached state (some validator) c = (ok validator, c)
      cached state none c = (new_validator state send, c)

      unfoldable pub get_or_create :
          AppState
          → ℕ
          → ℕ
          → JwksCache Key
          → Result (AuthorizationError E) (JwtValidator Key) × JwksCache Key
      get_or_create state now written c =
          if should_refresh now c.last_jwks_refresh
          then store_validator (new_validator state send) written (others c)
          else cached state (others c).jwks_cache (others c)
