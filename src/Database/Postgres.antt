-- ===== src/Database/Postgres.antt =====
-- src/database.rs with `DatabaseImpl::Real`: the tables of migrations/*.sql and the statements that
-- the methods send. A table is the list of its rows in the order of their insertion. What SQL leaves
-- open is a parameter: the order of the rows of an answer (`scan`), the text of an error of the server,
-- and whether the server answers at all.
pub mod Ids
pub mod Limits
pub mod Rows
pub mod Statuses
pub mod Totals
pub mod Keys
pub mod Agreement
pub mod Refinement
use saimiris_gateway.Prelude.{ℕ, ◌/◌, ◌*◌, String, List, [], Result, ok, err}
use saimiris_gateway.Prelude.Int.{ℤ}
use saimiris_gateway.Database.{MeasurementTracking}

-- An instant, in nanoseconds, as a TIMESTAMPTZ keeps it and as sqlx binds it: in whole microseconds.
abbrev pub timestamptz : ℕ → ℕ
timestamptz now = now / 1000 * 1000

-- A row of `user_limits`; INTEGER is an i32.
pub record LimitRow : Type 0 where
  pub id : ℕ
  pub user_hash : String
  pub probe_limit : ℤ
  pub created_at : ℕ
  pub updated_at : ℕ

-- A row of `user_id_mappings`.
pub record MappingRow : Type 0 where
  pub user_hash : String
  pub user_id : ℤ
  pub created_at : ℕ

pub record Tables : Type 0 where
  pub user_limits : List LimitRow
  pub user_id_mappings : List MappingRow
  pub measurement_tracking : List MeasurementTracking

-- The tables that the migrations create.
abbrev pub new_tables : Tables
new_tables = record { user_limits = []; user_id_mappings = []; measurement_tracking = [] }

-- The variants of `sqlx::Error` that the program tells apart, with their texts.
pub data SqlxError : Type 0 where
  row_not_found : SqlxError
  database : String → SqlxError
  io : String → SqlxError
  other : String → SqlxError

-- What becomes of a statement: it is answered, or it fails before or after the server has done it.
pub data Reply : Type 0 where
  answered : Reply
  refused : SqlxError → Reply
  lost : SqlxError → Reply

module _ {A : Type 0} where
  abbrev pub execute : Reply → Tables → Result SqlxError A × Tables → Result SqlxError A × Tables
  execute answered t r = r
  execute (refused e) t r = (err e, t)
  execute (lost e) t r = (err e, r.1)

  -- A statement that only reads.
  abbrev pub fetch : Reply → Result SqlxError A → Result SqlxError A
  fetch answered r = r
  fetch (refused e) r = err e
  fetch (lost e) r = err e

  -- A row breaks a constraint of its table: the statement is an error of the server.
  abbrev pub violates : (String → String) → String → Tables → Result SqlxError A × Tables
  violates duplicate_key constraint t = (err (database (duplicate_key constraint)), t)
