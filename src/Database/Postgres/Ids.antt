-- ===== src/Database/Postgres/Ids.antt =====
-- The table `user_id_mappings`: `get_user_id_by_hash` and `create_user_id_mapping` of src/database.rs
-- with `DatabaseImpl::Real`.
use saimiris_gateway.Prelude.{
  ℕ, String, Bool, false, ◌||◌, Option, none, some, [], ◌∷◌, ◌++◌, ◌==◌, find, any, if◌then◌else◌,
  str_eq, Result, ok, err,
}
use saimiris_gateway.Prelude.Int.{ℤ, pos, negsuc, as_u32, as_i32}
use saimiris_gateway.UserId.{contains}
use saimiris_gateway.Database.Mappings.{hash_taken, id_taken}
use saimiris_gateway.Database.Postgres.{
  Tables, SqlxError, database, Reply, timestamptz, execute, fetch, violates,
}

abbrev pub eq_ℤ : ℤ → ℤ → Bool
eq_ℤ (pos a) (pos b) = a == b
eq_ℤ (negsuc a) (negsuc b) = a == b
eq_ℤ _ _ = false

-- `SELECT user_id FROM user_id_mappings WHERE user_hash = $1`; the primary key leaves at most one row.
unfoldable pub select_user_id : Reply → Tables → String → Result SqlxError (Option ℕ)
select_user_id reply t user_hash = fetch reply (
    ok (elim (find (λ r. str_eq r.user_hash user_hash) t.user_id_mappings) [
      | some r ↦ some (as_u32 r.user_id)
      | none ↦ none
    ]))

-- The error with better context for the caller.
unfoldable pub explain : SqlxError → SqlxError
explain (database error_message) =
    if contains error_message "user_id_mappings_pkey" || contains error_message "user_hash"
    then SqlxError.io hash_taken
    else if contains error_message "user_id"
    then SqlxError.io id_taken
    else database error_message
explain SqlxError.row_not_found = SqlxError.row_not_found
explain (SqlxError.io s) = SqlxError.io s
explain (SqlxError.other s) = SqlxError.other s

abbrev pub explained : Result SqlxError (Unit {0}) × Tables → Result SqlxError (Unit {0}) × Tables
explained (ok u, t) = (ok u, t)
explained (err e, t) = (err (explain e), t)

-- `duplicate_key` gives the server's text for a broken constraint.
unfoldable pub insert_user_id_mapping :
    (String → String) → Reply → Tables → String → ℕ → ℕ → Result SqlxError (Unit {0}) × Tables
unfolding explain
insert_user_id_mapping duplicate_key reply t user_hash user_id now = explained (
    execute reply t (
      if any (λ r. str_eq r.user_hash user_hash) t.user_id_mappings
      then violates duplicate_key "user_id_mappings_pkey" t
      else if any (λ r. eq_ℤ r.user_id (as_i32 user_id)) t.user_id_mappings
      then violates duplicate_key "user_id_mappings_user_id_key" t
      else (
        ok tt,
        record t {
          user_id_mappings =
              t.user_id_mappings
              ++ record {
                user_hash = user_hash;
                user_id = as_i32 user_id;
                created_at = timestamptz now;
              }
                ∷ [];
        },
      )))
