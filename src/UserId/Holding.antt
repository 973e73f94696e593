-- ===== src/UserId/Holding.antt =====
-- The id that a user gets, over any database: an answer names an id that the database then holds.
use saimiris_gateway.Prelude.{
  ℕ, zero, suc, ◌+◌, String, ◌||◌, Option, none, some, ◌≡◌, refl, inl, inr, Result, ok, err,
  Bool-cases,
}
use saimiris_gateway.UserId.{
  UserIdError, contains, max_attempts, candidate_id, conclude, attempts, get_or_create_user_id,
}

-- The database keeps the id of a user that it finds, and of one that it creates with a fit id.
pub record KeepsIds {S : Type 0} (get : S → String → Result String (Option ℕ))
    (create : S → String → ℕ → Result String (Unit {0}) × S) (user_hash : String)
    (Holds : S → ℕ → Type 0) (IsFit : ℕ → Type 0) : Type 0 where
  pub finds : (s : S) (i : ℕ) → get s user_hash ≡ ok (some i) → Holds s i
  pub creates :
      (s : S) (i : ℕ)
      → IsFit i
      → (create s user_hash i).0 ≡ ok tt
      → Holds (create s user_hash i).1 i

module _ {S : Type 0} (Holds : S → ℕ → Type 0) where
  abbrev pub IsHeld : Result UserIdError ℕ × S → Type 0
  IsHeld (ok user_id, s) = Holds s user_id
  IsHeld (err e, s) = Unit

  module _ (IsFit : ℕ → Type 0) (get : S → String → Result String (Option ℕ))
      (create : S → String → ℕ → Result String (Unit {0}) × S) (others : ℕ → S → S) (random : ℕ → ℕ)
      (user_hash : String) (keeps : KeepsIds get create user_hash Holds IsFit)
      (fit : (attempt : ℕ) → IsFit (candidate_id get create others random user_hash attempt)) where
    found-IsHeld :
        (r : Result String (Option ℕ)) (s : S) (q : Result UserIdError ℕ × S)
        (e : String → UserIdError)
        → ((i : ℕ) → r ≡ ok (some i) → Holds s i)
        → IsHeld q
        → IsHeld (elim r [ ok (some i) ↦ (ok i, s) | ok none ↦ q | err x ↦ (err (e x), s) ])
    found-IsHeld (ok none) s q e found h = h
    found-IsHeld (ok (some i)) s q e found h = found i refl
    found-IsHeld (err x) s q e found h = tt

    conclude-IsHeld :
        (again : ℕ → S → Result UserIdError ℕ × S) (call candidate : ℕ)
        (r : Result String (Unit {0})) (s : S)
        → ((c : ℕ) (t : S) → IsHeld (again c t))
        → (r ≡ ok tt → Holds s candidate)
        → IsHeld (conclude get create others random user_hash again call candidate (r, s))
    conclude-IsHeld again call candidate (ok u) s step made = made refl
    conclude-IsHeld again call candidate (err e) s step made =
        elim (Bool-cases (contains e "UNIQUE constraint" || contains e "duplicate")) [
          | inr k ↦ rw k tt
          | inl k ↦ elim (Bool-cases (contains e "user_hash")) [
            | inl h ↦
                rw (k, h)
                  (found-IsHeld (get (others call s) user_hash) (others call s)
                    (again (call + 1) (others call s)) UserIdError.resolving
                    (keeps.finds (others call s)) (step (call + 1) (others call s)))
            | inr h ↦ rw (k, h) (step call s)
          ]
        ]

    attempts-IsHeld :
        (left attempt call : ℕ) (s : S)
        → IsHeld (attempts get create others random user_hash left attempt call s)
    unfolding attempts
    attempts-IsHeld zero attempt call s = tt
    attempts-IsHeld (suc left) attempt call s =
        conclude-IsHeld _ (call + 1) _ _ _ (λ c t. attempts-IsHeld left (attempt + 1) c t)
          (keeps.creates (others call s) _ (fit attempt))

    pub get_or_create_user_id-IsHeld :
        (s : S) → IsHeld (get_or_create_user_id get create others random user_hash s)
    unfolding get_or_create_user_id
    get_or_create_user_id-IsHeld s =
        found-IsHeld (get (others 0 s) user_hash) (others 0 s) _ UserIdError.fetching
          (keeps.finds (others 0 s)) (attempts-IsHeld max_attempts 0 1 (others 0 s))
