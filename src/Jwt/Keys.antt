-- ===== src/Jwt/Keys.antt =====
-- src/jwt.rs: a key set is fetched and read. The key constructors are the crate jsonwebtoken's, and
-- the answer of the HTTP client is an argument.
use saimiris_gateway.Prelude.{
  ℕ, String, Option, none, some, List, [], ◌∷◌, ◌&&◌, leb, str_eq, if◌then◌else◌, Result, ok, err,
  ◌>>=◌, is_empty,
}
use saimiris_gateway.Prelude.Map.{Map, insert}
use saimiris_gateway.Json.{Value, index, as_str, as_array}
use saimiris_gateway.App.{AppState}
use saimiris_gateway.Jwt.{
  AuthorizationError, with_status, jwks_uri, fetch_failed, fetch_status, parse_failed,
  no_valid_keys,
}

-- `DecodingKey::from_rsa_components` and `from_ec_components`; a refused key is `none`.
pub record KeyMaker (Key : Type 0) : Type 0 where
  pub from_rsa_components : String → String → Option Key
  pub from_ec_components : String → String → Option Key

-- What `send` gives: an error, or a status and a body that may fail to parse.
pub data HttpReply (E : Type 0) : Type 0 where
  send_failed : E → HttpReply E
  responded : ℕ → Result E Value → HttpReply E

module _ {Key : Type 0} (keys : KeyMaker Key) where
  -- `if let (Some(..), Some(..))` around a key constructor.
  abbrev pub rsa_key : Option String → Option String → Option Key
  rsa_key (some n) (some e) = keys.from_rsa_components n e
  rsa_key (some n) none = none
  rsa_key none _ = none

  abbrev pub ec_key : Option String → Option String → Option String → Option Key
  ec_key (some x) (some y) (some crv) = keys.from_ec_components x y
  ec_key (some x) (some y) none = none
  ec_key (some x) none _ = none
  ec_key none _ _ = none

  abbrev pub insert_made : String → Option Key → Map Key → Map Key
  insert_made kid none found = found
  insert_made kid (some decoding_key) found = insert kid decoding_key found

  -- The arms of `match kty`.
  unfoldable pub insert_key : Value → String → String → Map Key → Map Key
  insert_key key kid kty found =
      if str_eq kty "RSA"
      then insert_made kid (rsa_key (as_str (index "n" key)) (as_str (index "e" key))) found
      else if str_eq kty "EC"
      then insert_made kid
          (ec_key (as_str (index "x" key)) (as_str (index "y" key)) (as_str (index "crv" key)))
          found
      else found

  -- One pass of the loop, which skips a key that lacks a required field.
  abbrev pub insert_named : Value → Option String → Option String → Map Key → Map Key
  insert_named key (some kid) (some kty) found = insert_key key kid kty found
  insert_named key (some kid) none found = found
  insert_named key none _ found = found

  unfoldable pub insert_keys : List Value → Map Key → Map Key
  insert_keys [] found = found
  insert_keys (key ∷ rest) found =
      insert_keys rest
        (insert_named key (as_str (index "kid" key)) (as_str (index "kty" key)) found)

  abbrev pub keys_of : Option (List Value) → Map Key
  keys_of none = []
  keys_of (some keys_array) = insert_keys keys_array []

  unfoldable pub parse_jwks : {E : Type 0} → Value → Result (AuthorizationError E) (Map Key)
  parse_jwks jwks =
      let found = keys_of (as_array (index "keys" jwks)) in
      if is_empty found then err (with_status no_valid_keys 401) else ok found

  module _ {E : Type 0} where
    abbrev pub read_reply : String → HttpReply E → Result (AuthorizationError E) (Map Key)
    read_reply uri (send_failed e) = err (with_status (fetch_failed uri e) 401)
    read_reply uri (responded status body) =
        if leb 200 status && leb status 299
        then elim body [
          | ok jwks ↦ parse_jwks jwks
          | err e ↦ err (with_status (parse_failed e) 401)
        ]
        else err (with_status (fetch_status status) 401)

    unfoldable pub fetch_jwks :
        AppState → (String → HttpReply E) → Result (AuthorizationError E) (Map Key)
    fetch_jwks state send = do uri ← jwks_uri state; read_reply uri (send uri)
