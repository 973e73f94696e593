-- ===== src/Database/Postgres/Limits.antt =====
-- The table `user_limits`: `set_user_limit` and `get_user_limit` of src/database.rs with
-- `DatabaseImpl::Real`.
use saimiris_gateway.Prelude.{
  ℕ, String, Option, none, some, List, [], ◌∷◌, find, if◌then◌else◌, str_eq, Result, ok,
}
use saimiris_gateway.Prelude.Int.{as_u32, as_i32}
use saimiris_gateway.Database.{UserLimit}
use saimiris_gateway.Database.Postgres.{
  LimitRow, Tables, SqlxError, Reply, timestamptz, execute, fetch,
}

-- The record that the program makes of a row.
abbrev pub limit_row : LimitRow → UserLimit
limit_row row = record {
  id = row.id;
  user_hash = row.user_hash;
  probe_limit = as_u32 row.probe_limit;
  created_at = row.created_at;
  updated_at = row.updated_at;
}

-- `INSERT ... ON CONFLICT (user_hash) DO UPDATE ... RETURNING`: the row of the user, which is unique,
-- is changed, or a new one inserted.
unfoldable pub upsert : String → ℕ → ℕ → ℕ → List LimitRow → LimitRow × List LimitRow
upsert user_hash probe_limit new_id now [] =
    let row : LimitRow = record {
      id = new_id;
      user_hash = user_hash;
      probe_limit = as_i32 probe_limit;
      created_at = now;
      updated_at = now;
    } in
    (row, row ∷ [])
upsert user_hash probe_limit new_id now (r ∷ rs) =
    let changed = record r { probe_limit = as_i32 probe_limit; updated_at = now } in
    let (row, rest) = upsert user_hash probe_limit new_id now rs in
    if str_eq r.user_hash user_hash then (changed, changed ∷ rs) else (row, r ∷ rest)

-- `new_id` is drawn and `now` read by the server.
unfoldable pub upsert_user_limit :
    Reply → Tables → String → ℕ → ℕ → ℕ → Result SqlxError UserLimit × Tables
unfolding upsert
upsert_user_limit reply t user_hash probe_limit new_id now =
    let (row, rows) = upsert user_hash probe_limit new_id (timestamptz now) t.user_limits in
    execute reply t (ok (limit_row row), record t { user_limits = rows })

abbrev pub find_limit : Tables → String → Option LimitRow
find_limit t user_hash = find (λ r. str_eq r.user_hash user_hash) t.user_limits

unfoldable pub select_user_limit : Reply → Tables → String → Result SqlxError (Option UserLimit)
select_user_limit reply t user_hash =
    fetch reply (ok (elim (find_limit t user_hash) [ some r ↦ some (limit_row r) | none ↦ none ]))
