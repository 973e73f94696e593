-- ===== src/UserId/Mapped.antt =====
-- The id that a user gets, on the map from hashes to ids in memory.
use saimiris_gateway.Prelude.{ℕ, String, some, ◌≡◌, ◌∙◌, arith, eq_refl, Result}
use saimiris_gateway.Prelude.Map.{lookup}
use saimiris_gateway.Database.{MockStorage}
use saimiris_gateway.Database.Mappings.{get_user_id_by_hash, create_user_id_mapping}
use saimiris_gateway.Database.Mappings.Uniqueness.{create_user_id_mapping_cases}
use saimiris_gateway.UserId.{UserIdError, get_or_create_user_id}
use saimiris_gateway.UserId.Holding.{KeepsIds, IsHeld, get_or_create_user_id-IsHeld}

-- The map has the id for the user.
abbrev pub Maps : String → MockStorage → ℕ → Type 0
Maps user_hash s user_id = lookup user_hash s.user_id_mappings ≡ some user_id

-- An answer names the id that the map has for the user.
abbrev pub IsMapped : String → Result UserIdError ℕ × MockStorage → Type 0
IsMapped user_hash = IsHeld (Maps user_hash)

module _ (others : ℕ → MockStorage → MockStorage) (random : ℕ → ℕ) (user_hash : String) where
  mock-KeepsIds :
      KeepsIds get_user_id_by_hash create_user_id_mapping user_hash (Maps user_hash) (λ _. Unit {0})
  unfolding get_user_id_by_hash
  mock-KeepsIds = record {
    finds = λ s i e. cc;
    creates = λ s i fit e.
        create_user_id_mapping_cases s user_hash user_hash i ∙ ground (arith, eq_refl user_hash);
  }

  -- Whatever other requests do to the map between the calls of the database, and whatever numbers
  -- are drawn, an answer without an error is the id that the map has for the user when the call
  -- returns.
  pub get_or_create_user_id-IsMapped :
      (s : MockStorage)
      → IsMapped user_hash (
          get_or_create_user_id get_user_id_by_hash create_user_id_mapping others random user_hash
            s)
  get_or_create_user_id-IsMapped s =
      get_or_create_user_id-IsHeld (Maps user_hash) (λ _. Unit {0}) get_user_id_by_hash
        create_user_id_mapping others random user_hash mock-KeepsIds (λ _. tt) s
