-- ===== src/Jwt/KeySet.antt =====
-- Which keys a fetched key set gives.
use saimiris_gateway.Prelude.{
  String, Bool-cases, inl, inr, Option, none, some, List, [], ◌∷◌, ◌≡◌, ◌≢◌, refl, ap, sym, ◌∙◌,
  arith, str_eq, if◌then◌else◌, Result, ok, err, is_empty,
}
use saimiris_gateway.Prelude.Map.{Map, lookup, lookup-insert}
use saimiris_gateway.Json.{Value, index, as_str, as_array}
use saimiris_gateway.Jwt.{AuthorizationError, with_status, no_valid_keys}
use saimiris_gateway.Jwt.Keys.{
  KeyMaker, rsa_key, ec_key, insert_made, insert_key, insert_named, insert_keys, keys_of,
  parse_jwks,
}

module _ {Key : Type 0} (keys : KeyMaker Key) where
  abbrev pub with_text : Option String → (String → Option Key) → Option Key
  with_text none f = none
  with_text (some t) f = f t

  -- The key that an entry of the array describes: an RSA key by its components, or a key on an
  -- elliptic curve by its point, if the curve is named too.
  abbrev pub made : Value → String → Option Key
  made key kty =
      if str_eq kty "RSA"
      then with_text (as_str (index "n" key))
          (λ n. with_text (as_str (index "e" key)) (λ e. keys.from_rsa_components n e))
      else if str_eq kty "EC"
      then with_text (as_str (index "x" key)) (λ x.
        with_text (as_str (index "y" key))
          (λ y. with_text (as_str (index "crv" key)) (λ _. keys.from_ec_components x y)))
      else none

  abbrev pub named : String → Value → Option String → Option String → Option Key
  named k key (some kid) (some kty) = if str_eq kid k then made key kty else none
  named k key (some kid) none = none
  named k key none _ = none

  abbrev pub or_else : Option Key → Option Key → Option Key
  or_else (some a) b = some a
  or_else none b = b

  -- The last usable key of the array with that id.
  abbrev pub last_key : String → List Value → Option Key
  last_key k [] = none
  last_key k (v ∷ vs) =
      or_else (last_key k vs) (named k v (as_str (index "kid" v)) (as_str (index "kty" v)))

  abbrev pub listed : Option (List Value) → List Value
  listed (some vs) = vs
  listed none = []

  abbrev pub Reads : {E : Type 0} → List Value → Result (AuthorizationError E) (Map Key) → Type 0
  Reads vs (ok found) = (found ≢ []) × ((k : String) → lookup k found ≡ last_key k vs)
  Reads vs (err e) = (e ≡ with_status no_valid_keys 401) × ((k : String) → last_key k vs ≡ none)

  lookup-insert_made :
      (k kid : String) (o : Option Key) (found : Map Key)
      → lookup k (insert_made keys kid o found)
        ≡ or_else (if str_eq kid k then o else none) (lookup k found)
  lookup-insert_made k kid none found = ground arith
  lookup-insert_made k kid (some key) found = ground (arith, lookup-insert kid k key found)

  rsa_key_lem :
      (n e : Option String)
      → rsa_key keys n e ≡ with_text n (λ a. with_text e (λ b. keys.from_rsa_components a b))
  rsa_key_lem none e = refl
  rsa_key_lem (some n) none = refl
  rsa_key_lem (some n) (some e) = refl

  ec_key_lem :
      (x y crv : Option String)
      → ec_key keys x y crv
        ≡ with_text x (λ a. with_text y (λ b. with_text crv (λ _. keys.from_ec_components a b)))
  ec_key_lem none y crv = refl
  ec_key_lem (some x) none crv = refl
  ec_key_lem (some x) (some y) none = refl
  ec_key_lem (some x) (some y) (some crv) = refl

  lookup-insert_named :
      (k : String) (v : Value) (kid kty : Option String) (found : Map Key)
      → lookup k (insert_named keys v kid kty found) ≡ or_else (named k v kid kty) (lookup k found)
  unfolding insert_key
  lookup-insert_named k v (some kid) (some kty) found =
      let rsa = rsa_key_lem (as_str (index "n" v)) (as_str (index "e" v)) in
      let ec = ec_key_lem (as_str (index "x" v)) (as_str (index "y" v)) (as_str (index "crv" v)) in
      elim (Bool-cases (str_eq kty "RSA")) [
        | inl e ↦ rw (e, insert_key, sym rsa) (lookup-insert_made k kid _ found)
        | inr e ↦ elim (Bool-cases (str_eq kty "EC")) [
          | inl f ↦ rw (e, f, insert_key, sym ec) (lookup-insert_made k kid _ found)
          | inr f ↦ rw (e, f, insert_key) (ground arith)
        ]
      ]
  lookup-insert_named k v (some kid) none found = refl
  lookup-insert_named k v none kty found = refl

  or_else_assoc : (a b c : Option Key) → or_else a (or_else b c) ≡ or_else (or_else a b) c
  or_else_assoc none b c = refl
  or_else_assoc (some a) b c = refl

  lookup-insert_keys :
      (k : String) (vs : List Value) (found : Map Key)
      → lookup k (insert_keys keys vs found) ≡ or_else (last_key k vs) (lookup k found)
  unfolding insert_keys
  lookup-insert_keys k [] found = refl
  lookup-insert_keys k (v ∷ vs) found =
      let kid = as_str (index "kid" v) in
      let kty = as_str (index "kty" v) in
      lookup-insert_keys k vs (insert_named keys v kid kty found)
      ∙ ap (or_else (last_key k vs)) (lookup-insert_named k v kid kty found)
      ∙ or_else_assoc (last_key k vs) (named k v kid kty) (lookup k found)

  or_else-none : (a : Option Key) → or_else a none ≡ a
  or_else-none none = refl
  or_else-none (some a) = refl

  answer-Reads :
      (E : Type 0) (vs : List Value) (found : Map Key)
      → ((k : String) → lookup k found ≡ last_key k vs)
      → Reads vs (if is_empty found then err (with_status {E = E} no_valid_keys 401) else ok found)
  unfolding lookup
  answer-Reads E vs [] h = (refl, λ k. sym (h k))
  answer-Reads E vs (e ∷ found) h = (λ p. absurd cc, h)

  all_keys :
      (k : String) (o : Option (List Value)) → lookup k (keys_of keys o) ≡ last_key k (listed o)
  unfolding lookup
  all_keys k none = refl
  all_keys k (some vs) = lookup-insert_keys k vs [] ∙ or_else-none (last_key k vs)

  -- A document gives for each id its last usable key with that id, where a usable key has an id, a
  -- type RSA or EC and components that the crate accepts; a document without usable keys, or without
  -- an array of keys, is an error.
  pub parse_jwks-Reads :
      (E : Type 0) (jwks : Value)
      → Reads (listed (as_array (index "keys" jwks))) (parse_jwks keys {E = E} jwks)
  unfolding parse_jwks
  parse_jwks-Reads E jwks =
      let o = as_array (index "keys" jwks) in
      answer-Reads E (listed o) (keys_of keys o) (λ k. all_keys k o)
