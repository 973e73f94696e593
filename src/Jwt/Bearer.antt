-- ===== src/Jwt/Bearer.antt =====
-- How the two middlewares read the authorization header.
use saimiris_gateway.Prelude.{
  ℕ, String, true, Option, none, some, Option-cases, inl, inr, List, [], ◌∷◌, ◌++◌, ◌≡◌, refl, ap,
  ◌↔◌, arith, if◌then◌else◌, Result, ok, err, codes, codes_eq, codes_eq→eq, length,
}
use saimiris_gateway.Http.{unauthorized}
use saimiris_gateway.Handlers.Agents.{bearer, strip_prefix, validate_agent_key}
use saimiris_gateway.Jwt.{
  starts_with, drop, extract_bearer_token, AuthorizationError, with_status, no_bearer,
}

strip_prefix-starts_with :
    (p s : List ℕ) → strip_prefix p s ≡ (if starts_with p s then some (drop (length p) s) else none)
strip_prefix-starts_with [] s = refl
strip_prefix-starts_with (c ∷ p) [] = refl
strip_prefix-starts_with (c ∷ p) (d ∷ s) = ground (arith, strip_prefix-starts_with p s)

strip_prefix-append : (p t : List ℕ) → strip_prefix p (p ++ t) ≡ some t
strip_prefix-append [] t = refl
strip_prefix-append (c ∷ p) t = ground (arith, strip_prefix-append p t)

append-strip_prefix : (p s t : List ℕ) → strip_prefix p s ≡ some t → s ≡ p ++ t
append-strip_prefix [] s t h = cc
append-strip_prefix (c ∷ p) [] t h = absurd cc
append-strip_prefix (c ∷ p) (d ∷ s) t h = ground (arith, append-strip_prefix p s t)

codes_eq_refl : (xs : List ℕ) → codes_eq xs xs ≡ true
codes_eq_refl [] = refl
codes_eq_refl (x ∷ xs) = ground (arith, codes_eq_refl xs)

abbrev taken : {E : Type 0} → Option (List ℕ) → Result (AuthorizationError E) (List ℕ)
taken (some token) = ok token
taken none = err (with_status no_bearer 401)

module _ (E : Type 0) where
  extract_bearer_token-strip_prefix :
      (s : List ℕ) → extract_bearer_token {E = E} (some s) ≡ taken (strip_prefix bearer s)
  unfolding extract_bearer_token
  extract_bearer_token-strip_prefix s = rw (strip_prefix-starts_with bearer s) (ground arith)

  taken_ok : (o : Option (List ℕ)) (token : List ℕ) → taken {E = E} o ≡ ok token → o ≡ some token
  taken_ok (some t) token h = cc
  taken_ok none token h = absurd cc

  some_eq : (s t : List ℕ) → ◌≡◌ {A = Option (List ℕ)} (some s) (some t) → s ≡ t
  some_eq s t h = cc

  same_key :
      (key t : List ℕ)
      → ((if codes_eq t key then ok tt else err unauthorized) ≡ ok tt)
        ↔ (◌≡◌ {A = Result (AuthorizationError E) (List ℕ)} (ok t) (ok key))
  same_key key t = (
    λ h. ap ok (codes_eq→eq t key (ground arith)),
    λ h. let e : t ≡ key = cc in rw (e, codes_eq_refl key) refl,
  )

  -- The token is what follows `Bearer ` in the header: it is extracted from that header, and from no
  -- other.
  pub extract_bearer_token_iff :
      (authorization : Option (List ℕ)) (token : List ℕ)
      → (extract_bearer_token {E = E} authorization ≡ ok token)
        ↔ (authorization ≡ some (bearer ++ token))
  unfolding extract_bearer_token
  extract_bearer_token_iff none token = (λ h. absurd cc, λ h. absurd cc)
  extract_bearer_token_iff (some s) token = rw (extract_bearer_token-strip_prefix s) (
    λ h. ap some (append-strip_prefix bearer s token (taken_ok (strip_prefix bearer s) token h)),
    λ h. rw (some_eq s (bearer ++ token) h) refl,
  )

  -- The agents' middleware lets a header pass exactly if the users' middleware extracts the agent key
  -- from it.
  pub validate_agent_key-extract_bearer_token :
      (agent_key : String) (authorization : Option (List ℕ))
      → (validate_agent_key agent_key authorization ≡ ok tt)
        ↔ (extract_bearer_token {E = E} authorization ≡ ok (codes agent_key))
  unfolding extract_bearer_token validate_agent_key
  validate_agent_key-extract_bearer_token agent_key none = (λ h. absurd cc, λ h. absurd cc)
  validate_agent_key-extract_bearer_token agent_key (some s) =
      rw (extract_bearer_token-strip_prefix s) (elim (Option-cases (strip_prefix bearer s)) [
        | inl e ↦ rw e (λ h. absurd cc, λ h. absurd cc)
        | inr (t, e) ↦ rw e (same_key (codes agent_key) t)
      ])
