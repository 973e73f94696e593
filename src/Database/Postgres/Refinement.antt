-- ===== src/Database/Postgres/Refinement.antt =====
-- The two implementations of src/database.rs side by side: the tables of Postgres as a storage in
-- memory, and the methods that write, called one after the other.
pub mod Steps
pub mod Runs
use saimiris_gateway.Prelude.{
  ℕ, length, codes, ◌≤◌, ◌<◌, ◌^◌, String, Bool, true, false, Option, none, some, List, [], ◌∷◌,
  ◌++◌, ◌==◌, map, any, All, All-append, find, filter, if◌then◌else◌, Result, ok, err, ◌≡◌, refl,
  sym, ap, ◌∙◌, arith, Bool-cases, Option-cases, inl, inr,
}
use saimiris_gateway.Prelude.Int.{ℤ, as_u32-as_i32, as_i32}
use saimiris_gateway.Prelude.Map.{lookup}
use saimiris_gateway.UserId.{contains}
use saimiris_gateway.Database.{UserLimit, MeasurementTracking, MockStorage, ProbeUsageRecord}
use saimiris_gateway.Database.Usage.{set_limit, set_user_limit}
use saimiris_gateway.Database.Mappings.{hash_taken, id_taken, create_user_id_mapping}
use saimiris_gateway.Database.Tracking.{
  SqlError, create_measurement_tracking, update_first, update_measurement_probe_count, report,
  cancel_rows, cancel_measurement, is_open,
}
use saimiris_gateway.Database.Postgres.{
  Tables, SqlxError, io, row_not_found, Reply, timestamptz, answered, refused, lost, MappingRow,
}
use saimiris_gateway.Database.Postgres.Ids.{explain, insert_user_id_mapping}
use saimiris_gateway.Database.Postgres.Limits.{limit_row, upsert_user_limit}
use saimiris_gateway.Database.Postgres.Rows.{
  where_key, first_row, update_where, insert_measurement_tracking, update_tracking_row,
  update_cancelled,
}
use saimiris_gateway.Database.Postgres.Keys.{
  Keyed, Keyed-append, KeepsKey, Keyed-update_where, update_first-update_where,
  cancel_rows-update_where,
}
use saimiris_gateway.Database.Postgres.Agreement.{
  entry, HasI32, as_i32-IsI32, map-upsert, any_hash-lookup, any_id-entry, insert-entry,
}

-- A method that writes, with its arguments, the UUID drawn and the time read.
pub data Call : Type 0 where
  set_limit_to : String → ℕ → ℕ → ℕ → Call
  create_id : String → ℕ → ℕ → Call
  track_row : String → ℕ → String → ℤ → ℕ → ℕ → Call
  report_row : ℕ → String → String → ℤ → Bool → ℕ → Call
  cancel : ℕ → String → ℕ → Call

pub data Answer : Type 0 where
  limited : UserLimit → Answer
  created : Answer
  row : MeasurementTracking → Answer
  changed : ℕ → Answer
  failed : SqlxError → Answer

-- The methods on the storage in memory.
abbrev mapping_answer : Result String (Unit {0}) × MockStorage → Answer × MockStorage
mapping_answer (ok _, s) = (created, s)
mapping_answer (err e, s) = (failed (io e), s)

abbrev row_answer : Result SqlError MeasurementTracking × MockStorage → Answer × MockStorage
row_answer (ok r, s) = (row r, s)
row_answer (err _, s) = (failed row_not_found, s)

unfoldable pub perform : MockStorage → Call → Answer × MockStorage
perform s (set_limit_to u l new_id now) =
    let (r, s') = set_user_limit s u l new_id now in (limited r, s')
perform s (create_id u i now) = mapping_answer (create_user_id_mapping s u i)
perform s (track_row u m a n new_id now) =
    let (r, s') = create_measurement_tracking s u m a n new_id now in (row r, s')
perform s (report_row m u a sent done now) =
    row_answer (update_measurement_probe_count s m u a sent done now)
perform s (cancel m u now) = let (n, s') = cancel_measurement s m u now in (changed n, s')

-- The call with its time as Postgres keeps it.
abbrev pub rounded : Call → Call
rounded (set_limit_to u l new_id now) = set_limit_to u l new_id (timestamptz now)
rounded (create_id u i now) = create_id u i (timestamptz now)
rounded (track_row u m a n new_id now) = track_row u m a n new_id (timestamptz now)
rounded (report_row m u a sent done now) = report_row m u a sent done (timestamptz now)
rounded (cancel m u now) = cancel m u (timestamptz now)

-- The caller of `create_user_id_mapping` is told of an error by `explain`.
abbrev pub told : Call → SqlxError → SqlxError
told (create_id _ _ _) e = explain e
told (set_limit_to _ _ _ _) e = e
told (track_row _ _ _ _ _ _) e = e
told (report_row _ _ _ _ _ _) e = e
told (cancel _ _ _) e = e

-- What the storage in memory says a call does, by what becomes of the statement.
abbrev pub promised : Reply → MockStorage → Call → Answer × MockStorage
promised answered s c = perform s c
promised (refused e) s c = (failed (told c e), s)
promised (lost e) s c = (failed (told c e), (perform s c).1)

abbrev pub outcome : {A : Type 0} → (A → Answer) → Result SqlxError A × Tables → Answer × Tables
outcome f (ok a, t) = (f a, t)
outcome f (err e, t) = (failed e, t)

-- The tables as a storage in memory; the records of usage are kept there only.
abbrev pub storage_of : List ProbeUsageRecord → Tables → MockStorage
storage_of records t = record {
  records = records;
  user_limits = map limit_row t.user_limits;
  user_id_mappings = map entry t.user_id_mappings;
  measurement_tracking = t.measurement_tracking;
}

-- The constraints of the tables that the methods rely on.
pub record IsSound (t : Tables) : Type 0 where
  pub columns : All HasI32 t.user_id_mappings
  pub keyed : Keyed t.measurement_tracking

-- The server's text for a broken constraint holds the constraint's name, and no other words that the
-- program looks for.
pub record NamesConstraint (duplicate_key : String → String) : Type 0 where
  pub names_pkey : contains (duplicate_key "user_id_mappings_pkey") "user_id_mappings_pkey" ≡ true
  pub names_id : contains (duplicate_key "user_id_mappings_user_id_key") "user_id" ≡ true
  pub no_pkey :
      contains (duplicate_key "user_id_mappings_user_id_key") "user_id_mappings_pkey" ≡ false
  pub no_hash : contains (duplicate_key "user_id_mappings_user_id_key") "user_hash" ≡ false

module _ (duplicate_key : String → String) where
  unfoldable pub perform_postgres : Reply → Tables → Call → Answer × Tables
  perform_postgres reply t (set_limit_to u l new_id now) =
      outcome limited (upsert_user_limit reply t u l new_id now)
  perform_postgres reply t (create_id u i now) =
      outcome (λ _. created) (insert_user_id_mapping duplicate_key reply t u i now)
  perform_postgres reply t (track_row u m a n new_id now) =
      outcome row (insert_measurement_tracking duplicate_key reply t u m a n new_id now)
  perform_postgres reply t (report_row m u a sent done now) =
      outcome row (update_tracking_row reply t m u a sent done now)
  perform_postgres reply t (cancel m u now) = outcome changed (update_cancelled reply t m u now)

  -- Numbers are of 32 bits, and a tracking row is new, with an agent's id that its column holds.
  abbrev pub Fits : Tables → Call → Type 0
  Fits t (set_limit_to u l new_id now) = l < 2 ^ 32
  Fits t (create_id u i now) = i < 2 ^ 32
  Fits t (track_row u m a n new_id now) =
      (any (where_key m u a) t.measurement_tracking ≡ false) × (length (codes a) ≤ 255)
  Fits t (report_row m u a sent done now) = Unit
  Fits t (cancel m u now) = Unit

  abbrev lifted : List ProbeUsageRecord → Answer × Tables → Answer × MockStorage
  lifted records (a, t) = (a, storage_of records t)
