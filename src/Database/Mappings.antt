-- ===== src/Database/Mappings.antt =====
-- The map from user hashes to user ids of src/database.rs.
pub mod Uniqueness
use saimiris_gateway.Prelude.{
  ℕ, String, Bool, true, false, Option, none, some, List, ◌==◌, if◌then◌else◌, any, Result, ok, err,
}
use saimiris_gateway.Prelude.Map.{Map, lookup, insert}
use saimiris_gateway.Database.{MockStorage}

unfoldable pub get_user_id_by_hash : MockStorage → String → Result String (Option ℕ)
get_user_id_by_hash s user_hash = ok (lookup user_hash s.user_id_mappings)

abbrev pub hash_taken : String
hash_taken = "UNIQUE constraint failed: user_hash already exists"

abbrev pub id_taken : String
id_taken = "UNIQUE constraint failed: user_id already exists"

-- An error is its text.
unfoldable pub create_user_id_mapping :
    MockStorage → String → ℕ → Result String (Unit {0}) × MockStorage
create_user_id_mapping s user_hash user_id = elim (lookup user_hash s.user_id_mappings) [
  | some _ ↦ (err hash_taken, s)
  | none ↦
      if any (λ e. e.1 == user_id) s.user_id_mappings
      then (err id_taken, s)
      else (ok tt, record s { user_id_mappings = insert user_hash user_id s.user_id_mappings })
]
