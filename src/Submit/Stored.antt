-- ===== src/Submit/Stored.antt =====
-- A submission (src/lib.rs, `submit_probes`) over Postgres, with each statement answered and no other
-- request in between, and what it costs.
pub mod Rows
pub mod Calls
use saimiris_gateway.Prelude.{ℕ, String}
use saimiris_gateway.Prefix.Ipnet.{Ipnet}
use saimiris_gateway.Database.Postgres.{Tables, SqlxError}
use saimiris_gateway.Submit.{Database}
use saimiris_gateway.Submit.Stored.Calls.{postgres_database}

module _ (hash_user_identifier : String → String) (random : ℕ → ℕ) (text : SqlxError → String)
    (duplicate_key : String → String) (today_start checked_at : ℕ) (new_id clock : ℕ → ℕ) where
  abbrev pub stored_database : Database Tables
  stored_database =
      postgres_database hash_user_identifier random text duplicate_key today_start checked_at new_id
        clock
