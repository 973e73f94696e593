-- ===== src/UserId/Untouched.antt =====
-- What a search for a user's id leaves of the database alone.
use saimiris_gateway.Prelude.{
  ℕ, zero, suc, ◌+◌, String, ◌||◌, Option, none, some, List, ◌≡◌, refl, ◌∙◌, inl, inr, ◌==◌, any,
  Result, ok, err, Bool-cases, Option-cases,
}
use saimiris_gateway.Prelude.Map.{lookup}
use saimiris_gateway.Database.{MockStorage, MeasurementTracking, UserLimit}
use saimiris_gateway.Database.Mappings.{get_user_id_by_hash, create_user_id_mapping}
use saimiris_gateway.UserId.{
  UserIdError, contains, max_attempts, candidate_id, conclude, attempts, get_or_create_user_id,
}

-- A part of a database that an insertion and the other requests leave alone.
module _ {S K : Type 0} (part : S → K) (get : S → String → Result String (Option ℕ))
    (create : S → String → ℕ → Result String (Unit {0}) × S) (others : ℕ → S → S) (random : ℕ → ℕ)
    (user_hash : String) (create_keeps : (s : S) (i : ℕ) → part (create s user_hash i).1 ≡ part s)
    (others_keep : (call : ℕ) (s : S) → part (others call s) ≡ part s) where
  abbrev part_after : Result UserIdError ℕ × S → K
  part_after p = part p.1

  refetch-kept :
      (r : Result String (Option ℕ)) (s : S) (again : Result UserIdError ℕ × S)
      (e : String → UserIdError)
      → part_after again ≡ part s
      → part_after (elim r [ ok (some i) ↦ (ok i, s) | ok none ↦ again | err x ↦ (err (e x), s) ])
        ≡ part s
  refetch-kept (ok none) s again e h = h
  refetch-kept (ok (some i)) s again e h = refl
  refetch-kept (err x) s again e h = refl

  conclude-kept :
      (again : ℕ → S → Result UserIdError ℕ × S) (call i : ℕ) (r : Result String (Unit {0})) (s : S)
      → ((c : ℕ) (t : S) → part_after (again c t) ≡ part t)
      → part_after (conclude get create others random user_hash again call i (r, s)) ≡ part s
  conclude-kept again call i (ok _) s keeps = refl
  conclude-kept again call i (err e) s keeps =
      elim (Bool-cases (contains e "UNIQUE constraint" || contains e "duplicate")) [
        | inr k ↦ rw k refl
        | inl k ↦ elim (Bool-cases (contains e "user_hash")) [
          | inr l ↦ rw (k, l) (keeps call s)
          | inl l ↦
              rw (k, l)
                (refetch-kept (get (others call s) user_hash) (others call s)
                    (again (call + 1) (others call s)) UserIdError.resolving
                    (keeps (call + 1) (others call s))
                  ∙ others_keep call s)
        ]
      ]

  attempts-kept :
      (left attempt call : ℕ) (s : S)
      → part_after (attempts get create others random user_hash left attempt call s) ≡ part s
  unfolding attempts
  attempts-kept zero attempt call s = refl
  attempts-kept (suc left) attempt call s =
      let i = candidate_id get create others random user_hash attempt in
      let p : Result String (Unit {0}) × S = create (others call s) user_hash i in
      conclude-kept (λ c t. attempts get create others random user_hash left (attempt + 1) c t)
        (call + 1) i p.0 p.1 (attempts-kept left (attempt + 1))
      ∙ create_keeps (others call s) i
      ∙ others_keep call s

  pub get_or_create_user_id-part :
      (s : S) → part_after (get_or_create_user_id get create others random user_hash s) ≡ part s
  unfolding get_or_create_user_id
  get_or_create_user_id-part s =
      refetch-kept (get (others 0 s) user_hash) (others 0 s) _ UserIdError.fetching
        (attempts-kept max_attempts 0 1 (others 0 s))
      ∙ others_keep 0 s

-- The tracking rows and the limits.
abbrev pub kept : MockStorage → List MeasurementTracking × List UserLimit
kept s = (s.measurement_tracking, s.user_limits)

create-kept :
    (s : MockStorage) (user_hash : String) (i : ℕ)
    → kept (create_user_id_mapping s user_hash i).1 ≡ kept s
unfolding create_user_id_mapping
create-kept s user_hash i = elim (Option-cases (lookup user_hash s.user_id_mappings)) [
  | inr (_, e) ↦ rw (e, create_user_id_mapping) refl
  | inl e ↦ elim (Bool-cases (any (λ e. e.1 == i) s.user_id_mappings)) [
    | inl k ↦ rw (e, create_user_id_mapping, k) refl
    | inr k ↦ rw (e, create_user_id_mapping, k) refl
  ]
]

pub get_or_create_user_id-kept :
    (random : ℕ → ℕ) (user_hash : String) (s : MockStorage)
    → kept
        (get_or_create_user_id get_user_id_by_hash create_user_id_mapping
          (λ _ t. t)
          random
          user_hash
          s).1
      ≡ kept s
get_or_create_user_id-kept random user_hash s =
    get_or_create_user_id-part kept get_user_id_by_hash create_user_id_mapping (λ _ t. t) random
      user_hash (λ t i. create-kept t user_hash i) (λ _ _. refl) s
