-- ===== src/Jwt/Locks.antt =====
-- The shared validator as a state machine: the two writes of a refresh are steps of their own, with
-- the lock of the cache held in between.
use saimiris_gateway.Prelude.{
  ℕ, String, Bool, true, false, Option, none, some, ◌≡◌, refl, ok, Bool-cases, Result-cases, inl,
  inr,
}
use saimiris_gateway.App.{AppState}
use saimiris_gateway.Jwt.Keys.{KeyMaker, HttpReply}
use saimiris_gateway.Jwt.Validator.{JwtValidator}
use saimiris_gateway.Jwt.Cache.{
  JwksCache, empty_cache, should_refresh, set_validator, set_refresh, new_validator, cached,
  get_or_create,
}

fresh_time :
    (now : ℕ) (last : Option ℕ) → should_refresh now last ≡ false → (time : ℕ) × (last ≡ some time)
unfolding should_refresh
fresh_time now none h = absurd cc
fresh_time now (some time) h = (time, refl)

-- The cache, and whether a request that refreshes it is between its two writes.
abbrev pub Shared : Type 0 → Type 0
Shared Key = JwksCache Key × Bool

module _ {Key : Type 0} where
  pub data Step : Shared Key → Shared Key → Type 0 where
    write_cache :
        (v : JwtValidator Key) (c : JwksCache Key) → Step (c, false) (set_validator v c, true)
    write_refresh : (time : ℕ) (c : JwksCache Key) → Step (c, true) (set_refresh time c, false)

  pub data Reach : Shared Key → Shared Key → Type 0 where
    start : (s : Shared Key) → Reach s s
    next : (s s' s'' : Shared Key) → Reach s s' → Step s' s'' → Reach s s''

  -- The cache holds a validator.
  abbrev pub HasKeys : JwksCache Key → Type 0
  HasKeys c = (v : JwtValidator Key) × (c.jwks_cache ≡ some v)

  -- A validator is there once a refresh is under way or has taken place.
  abbrev IsSafe : Shared Key → Type 0
  IsSafe (c, w) =
      (w ≡ true → HasKeys c) × ((time : ℕ) → c.last_jwks_refresh ≡ some time → HasKeys c)

  Step-IsSafe : (s s' : Shared Key) → Step s s' → IsSafe s → IsSafe s'
  Step-IsSafe _ _ (write_cache v c) safe = (λ _. (v, refl), λ _ _. (v, refl))
  Step-IsSafe _ _ (write_refresh time c) safe = (λ h. absurd cc, λ _ _. safe.0 refl)

  Reach-IsSafe : (s s' : Shared Key) → Reach s s' → IsSafe s → IsSafe s'
  Reach-IsSafe s _ (start _) safe = safe
  Reach-IsSafe s s'' (next _ s' _ r step) safe = Step-IsSafe s' s'' step (Reach-IsSafe s s' r safe)

  -- Validators are replaced and never taken away.
  Step-HasKeys : (s s' : Shared Key) → Step s s' → HasKeys s.0 → HasKeys s'.0
  Step-HasKeys _ _ (write_cache v c) h = (v, refl)
  Step-HasKeys _ _ (write_refresh time c) h = h

  Reach-HasKeys : (s s' : Shared Key) → Reach s s' → HasKeys s.0 → HasKeys s'.0
  Reach-HasKeys s _ (start _) h = h
  Reach-HasKeys s s'' (next _ s' _ r step) h = Step-HasKeys s' s'' step (Reach-HasKeys s s' r h)

  refresh-Reach :
      (v : JwtValidator Key) (time : ℕ) (c : JwksCache Key)
      → Reach (c, false) (set_refresh time (set_validator v c), false)
  refresh-Reach v time c =
      next _ _ _ (next _ _ _ (start _) (write_cache v c)) (write_refresh time (set_validator v c))

  Reach-trans : (s s' s'' : Shared Key) → Reach s s' → Reach s' s'' → Reach s s''
  Reach-trans s s' _ r (start _) = r
  Reach-trans s s' s'' r (next _ t _ q step) = next s t s'' (Reach-trans s s' t r q) step

  module _ {E : Type 0} (keys : KeyMaker Key) (others : JwksCache Key → JwksCache Key)
      (send : String → HttpReply E) (state : AppState) (now written : ℕ) (c : JwksCache Key)
      (writing : Bool) where
    cached_lem :
        (o : Option (JwtValidator Key)) (d : JwksCache Key)
        → (cached keys others send state o d).1 ≡ d
    cached_lem (some v) d = refl
    cached_lem none d = refl

    left-Reach :
        Reach (c, writing) (others c, false)
        → Reach (c, writing) ((get_or_create keys others send state now written c).1, false)
    unfolding get_or_create
    left-Reach between = elim (Bool-cases (should_refresh now c.last_jwks_refresh)) [
      | inl e ↦ rw e (elim (Result-cases (new_validator keys state send)) [
        | inl (v, k) ↦ rw k (
            Reach-trans (c, writing) (others c, false) _ between
              (refresh-Reach v written (others c)))
        | inr (x, k) ↦ rw k between
      ])
      | inr e ↦ rw (e, cached_lem (others c).jwks_cache (others c)) between
    ]

    still_there :
        Reach (empty_cache, false) (c, writing)
        → Reach (c, writing) (others c, false)
        → should_refresh now c.last_jwks_refresh ≡ false
        → HasKeys (others c)
    still_there reached between fresh =
        let (time, last) = fresh_time now c.last_jwks_refresh fresh in
        let begin : IsSafe (empty_cache {Key = Key}, false) = (λ h. absurd cc, λ _ h. absurd cc) in
        let safe = Reach-IsSafe (empty_cache, false) (c, writing) reached begin in
        Reach-HasKeys (c, writing) (others c, false) between (safe.1 time last)

    -- A request that looks at the cache in a state that requests can reach, while others take any
    -- steps before its next look, leaves a state that can be reached; and if it finds the keys fresh,
    -- it answers with the validator in the cache, so the keys are not fetched for lack of one.
    pub get_or_create-Reach :
        Reach (empty_cache, false) (c, writing)
        → Reach (c, writing) (others c, false)
        → (Reach (c, writing) ((get_or_create keys others send state now written c).1, false))
          × (should_refresh now c.last_jwks_refresh ≡ false
              → (v : JwtValidator Key) × ((others c).jwks_cache ≡ some v)
                × (get_or_create keys others send state now written c ≡ (ok v, others c)))
    unfolding get_or_create
    get_or_create-Reach reached between = (
      left-Reach between,
      λ fresh.
          let (v, there) = still_there reached between fresh in (v, there, rw (fresh, there) refl),
    )
