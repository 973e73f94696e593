-- ===== src/Http.antt =====
-- Requests handled by src/lib.rs: a handler runs in a world that it may change, and answers with a
-- value, with a status code and a message, or panics.
use saimiris_gateway.Prelude.{ℕ, ◌≡◌, sym, ap, ◌⊎◌, inl, inr, refl, Result, ok, err}

pub data Failure {ℓ} (M : Type ℓ) : Type ℓ where
  responds : ℕ → M → Failure M
  panics : Failure M

abbrev pub Handler {ℓ} : Type ℓ → Type ℓ → Type ℓ → Type ℓ
Handler W M A = W → Result (Failure M) A × W

module _ {ℓ} {W M A : Type ℓ} where
  abbrev pub pure : A → Handler W M A
  pure a w = (ok a, w)

  -- A response with a status code that ends the handler.
  abbrev pub respond : ℕ → M → Handler W M A
  respond status message w = (err (responds status message), w)

module _ {ℓ} {W M A B : Type ℓ} where
  abbrev pub continue : Result (Failure M) A → (A → Handler W M B) → Handler W M B
  continue (ok a) f w = f a w
  continue (err e) f w = (err e, w)

  infixl 5 ◌>>=◌
  unfoldable pub ◌>>=◌ : Handler W M A → (A → Handler W M B) → Handler W M B
  ◌>>=◌ m f w = continue (m w).0 f (m w).1

  bind_ok_at :
      (f : A → Handler W M B) (r : Result (Failure M) A) (w' w'' : W) (b : B)
      → continue r f w' ≡ (ok b, w'')
      → (a : A) × (r ≡ ok a) × (f a w' ≡ (ok b, w''))
  bind_ok_at f (ok a) w' w'' b h = (a, refl, h)
  bind_ok_at f (err x) w' w'' b h = absurd cc

  -- A handler that ends well ends well at each step.
  pub bind_ok :
      (m : Handler W M A) (f : A → Handler W M B) (w w'' : W) (b : B)
      → (m >>= f) w ≡ (ok b, w'')
      → (a : A) × (w' : W) × (m w ≡ (ok a, w')) × (f a w' ≡ (ok b, w''))
  unfolding ◌>>=◌
  bind_ok m f w w'' b h =
      let (a, e, k) = bind_ok_at f (m w).0 (m w).1 w'' b h in
      (a, (m w).1, ap (λ r. (r, (m w).1)) e, k)

  bind_err_at :
      (f : A → Handler W M B) (r : Result (Failure M) A) (w' w'' : W) (x : Failure M)
      → continue r f w' ≡ (err x, w'')
      → ((r ≡ err x) × (w' ≡ w'')) ⊎ ((a : A) × (r ≡ ok a) × (f a w' ≡ (err x, w'')))
  bind_err_at f (ok a) w' w'' x h = inr (a, refl, h)
  bind_err_at f (err y) w' w'' x h = inl (cc, cc)

  -- A handler that fails does so at its first step, or after it.
  pub bind_err :
      (m : Handler W M A) (f : A → Handler W M B) (w w'' : W) (x : Failure M)
      → (m >>= f) w ≡ (err x, w'')
      → (m w ≡ (err x, w'')) ⊎ ((a : A) × (w' : W) × (m w ≡ (ok a, w')) × (f a w' ≡ (err x, w'')))
  unfolding ◌>>=◌
  bind_err m f w w'' x h = elim (bind_err_at f (m w).0 (m w).1 w'' x h) [
    | inl (e, k) ↦ inl (rw (sym e, sym k))
    | inr (a, e, k) ↦ inr (a, (m w).1, ap (λ r. (r, (m w).1)) e, k)
  ]

-- Status codes.
abbrev pub bad_request : ℕ
bad_request = 400

abbrev pub unauthorized : ℕ
unauthorized = 401

abbrev pub forbidden : ℕ
forbidden = 403

abbrev pub not_found : ℕ
not_found = 404

abbrev pub conflict : ℕ
conflict = 409

abbrev pub too_many_requests : ℕ
too_many_requests = 429

abbrev pub internal_server_error : ℕ
internal_server_error = 500
