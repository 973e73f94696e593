-- ===== src/UserId/Reached.antt =====
-- When the attempts to find a free id succeed.
use saimiris_gateway.Prelude.{
  subst, ℕ, zero, suc, ◌+◌, ◌<◌, String, true, false, none, some, ◌≡◌, refl, ap, ◌∙◌, ◌⊎◌, inl, inr,
  arith, ◌==◌, any, Result, ok, err, Bool-cases, Option-cases,
}
use saimiris_gateway.Prelude.Map.{lookup}
use saimiris_gateway.Database.{MockStorage}
use saimiris_gateway.Database.Mappings.{id_taken, get_user_id_by_hash, create_user_id_mapping}
use saimiris_gateway.UserId.{
  UserIdError, max_attempts, candidate_id, attempts, get_or_create_user_id,
}

module _ (random : ℕ → ℕ) (user_hash : String) where
  abbrev calm : ℕ → MockStorage → MockStorage
  calm _ s = s

  -- The id that an attempt tries.
  abbrev candidate : ℕ → ℕ
  candidate = candidate_id get_user_id_by_hash create_user_id_mapping calm random user_hash

  -- No user has the id.
  abbrev IsFree : MockStorage → ℕ → Type 0
  IsFree s i = any (λ e. e.1 == i) s.user_id_mappings ≡ false

  created :
      (s : MockStorage) (i : ℕ)
      → lookup user_hash s.user_id_mappings ≡ none
      → ((create_user_id_mapping s user_hash i).0 ≡ ok tt)
        ⊎ ((create_user_id_mapping s user_hash i ≡ (err id_taken, s))
            × (any (λ e. e.1 == i) s.user_id_mappings ≡ true))
  unfolding create_user_id_mapping
  created s i new = elim (Bool-cases (any (λ e. e.1 == i) s.user_id_mappings)) [
    | inr e ↦ inl (ground arith)
    | inl e ↦ inr (ground arith, e)
  ]

  -- An attempt whose id is stored answers with it, and one whose id is taken goes on.
  step_ok :
      (left attempt call : ℕ) (s : MockStorage)
      → (create_user_id_mapping s user_hash (candidate attempt)).0 ≡ ok tt
      → (attempts get_user_id_by_hash create_user_id_mapping calm random user_hash
          (suc left)
          attempt
          call
          s).0
        ≡ ok (candidate attempt)
  unfolding attempts
  step_ok left attempt call s e = rw e refl

  step_taken :
      (left attempt call : ℕ) (s : MockStorage)
      → create_user_id_mapping s user_hash (candidate attempt) ≡ (err id_taken, s)
      → attempts get_user_id_by_hash create_user_id_mapping calm random user_hash
          (suc left)
          attempt
          call
          s
        ≡ attempts get_user_id_by_hash create_user_id_mapping calm random user_hash left
            (attempt + 1)
            (call + 1)
            s
  unfolding attempts
  step_taken left attempt call s e = rw e refl

  attempts_reach :
      (left attempt call k : ℕ) (s : MockStorage)
      → lookup user_hash s.user_id_mappings ≡ none
      → k < left
      → IsFree s (candidate (attempt + k))
      → (i : ℕ) × ((attempts get_user_id_by_hash create_user_id_mapping calm random user_hash left
            attempt call s).0
          ≡ ok i)
  attempts_reach zero attempt call k s new less free = absurd (omega arith)
  attempts_reach (suc left) attempt call zero s new less free =
      elim (created s (candidate attempt) new) [
        | inl e ↦ (candidate attempt, step_ok left attempt call s e)
        | inr (_, taken) ↦
            let here : attempt + 0 ≡ attempt = omega arith in
            let same = subst (λ n. IsFree s (candidate n)) here free in absurd cc
      ]
  attempts_reach (suc left) attempt call (suc k) s new less free =
      elim (created s (candidate attempt) new) [
        | inl e ↦ (candidate attempt, step_ok left attempt call s e)
        | inr (e, _) ↦
            let there : attempt + suc k ≡ attempt + 1 + k = omega arith in
            let (i, h) =
              attempts_reach left (attempt + 1) (call + 1) k s new (omega arith)
                (subst (λ n. IsFree s (candidate n)) there free) in
            (
              i,
              ap (λ (r : Result UserIdError ℕ × MockStorage). r.0)
                    (step_taken left attempt call s e)
                  ∙ h,
            )
      ]

  from_attempts :
      (s : MockStorage) (i : ℕ)
      → lookup user_hash s.user_id_mappings ≡ none
      → (attempts get_user_id_by_hash create_user_id_mapping calm random user_hash max_attempts 0 1
          s).0
        ≡ ok i
      → (get_or_create_user_id get_user_id_by_hash create_user_id_mapping calm random user_hash s).0
        ≡ ok i
  unfolding get_or_create_user_id get_user_id_by_hash
  from_attempts s i new h = rw (new, get_or_create_user_id) h

  -- While no other request changes the map, the call answers with an id if the user has one, or if
  -- one of the hundred candidates, the one derived from the hash and ninety-nine draws, is free.
  pub get_or_create_user_id_reached :
      (s : MockStorage) (k : ℕ)
      → k < max_attempts
      → ((i : ℕ) × (lookup user_hash s.user_id_mappings ≡ some i)) ⊎ IsFree s (candidate k)
      → (i : ℕ) × ((get_or_create_user_id get_user_id_by_hash create_user_id_mapping
            (λ _ t. t)
            random
            user_hash
            s).0
          ≡ ok i)
  unfolding get_or_create_user_id get_user_id_by_hash
  get_or_create_user_id_reached s k less h =
      elim (Option-cases (lookup user_hash s.user_id_mappings)) [
        | inr (i, known) ↦ (i, rw (known, get_or_create_user_id) refl)
        | inl new ↦ elim h [
          | inl (i, known) ↦ absurd cc
          | inr free ↦
              let (i, e) =
                attempts_reach max_attempts 0 1 k s new less
                  (subst (λ n. IsFree s (candidate n)) (omega arith) free) in
              (i, from_attempts s i new e)
        ]
      ]
