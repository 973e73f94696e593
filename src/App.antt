-- ===== src/App.antt =====
-- src/lib.rs: the configuration in `AppState` that the middlewares read. Its stores, its producer
-- and its database are arguments of the operations that use them.
use saimiris_gateway.Prelude.{String, Bool, Option}

pub record AppState : Type 0 where
  pub agent_key : String
  pub auth0_jwks_uri : Option String
  pub auth0_issuer : Option String
  pub bypass_jwt_validation : Bool
