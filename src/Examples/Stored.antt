-- ===== src/Examples/Stored.antt =====
-- The handlers and the search for an id over Postgres at concrete inputs.
use saimiris_gateway.Prelude.{
  ◌==◌, ℕ, String, true, Option, none, some, [], ◌≡◌, refl, arith, str_eq, if◌then◌else◌, err,
}
use saimiris_gateway.Prelude.Int.{pos}
use saimiris_gateway.Database.Mappings.{id_taken}
use saimiris_gateway.Database.Postgres.{timestamptz, SqlxError, answered, lost}
use saimiris_gateway.Database.Postgres.Ids.{select_user_id}
use saimiris_gateway.Database.Postgres.Statuses.Arrangement.{Arranged-refl}
use saimiris_gateway.Database.Postgres.Refinement.{storage_of}
use saimiris_gateway.UserId.{exhausted, max_attempts, get_or_create_user_id}
use saimiris_gateway.UserId.Holding.{IsHeld}
use saimiris_gateway.UserId.Attempts.{
  Counts, counted_get, counted_create, counted_others, get_or_create_user_id-Counts,
}
use saimiris_gateway.UserId.Stored.{
  Connection, Stores, stored_get, stored_create, get_or_create_user_id-IsStored,
}
use saimiris_gateway.UserId.Misreported.{refusing, get_or_create_user_id_exhausted}
use saimiris_gateway.Handlers.Measurements.{
  mock, cancel_measurement_handler, UpdateMeasurementStatusRequest, update_measurement_status,
}
use saimiris_gateway.Handlers.Measurements.Served.Calls.{postgres, OneRow, as_storage}
use saimiris_gateway.Handlers.Measurements.Served.{
  cancel_measurement_handler-as_storage, update_measurement_status-as_storage,
}
use saimiris_gateway.Examples.Postgres.{duplicate_key, tables}

-- The text of an error of sqlx.
abbrev pub text : SqlxError → String
text SqlxError.row_not_found =
    "no rows returned by a query that expected to return at least one row"
text (SqlxError.database message) = message
text (SqlxError.io message) =
    if str_eq message id_taken
    then "error communicating with database: UNIQUE constraint failed: user_id already exists"
    else message
text (SqlxError.other message) = message

abbrev pub clock : ℕ → ℕ
clock n = 26000

abbrev pub random : ℕ → ℕ
random n = 3000000

-- The second statement after the start is lost, all others are answered.
abbrev losing : ℕ → Connection → Connection
losing call (t, _) = (t, if call == 1 then lost (SqlxError.other "closed") else answered)

get_or_create_user_id-IsStored_example : IsHeld (Stores "user") (
    get_or_create_user_id
      (stored_get text duplicate_key clock)
      (stored_create text duplicate_key clock)
      losing
      random
      "user"
      (tables, answered))
get_or_create_user_id-IsStored_example =
    get_or_create_user_id-IsStored text duplicate_key clock losing random (λ n. omega arith) "user"
      (tables, answered)

get_or_create_user_id-Counts_example :
    let get = stored_get text duplicate_key clock in
    let create = stored_create text duplicate_key clock in
    Counts get create
      (λ _ c. c)
      random
      "user"
      0
      max_attempts
      (get_or_create_user_id
        (counted_get get create (λ _ c. c) random "user")
        (counted_create get create (λ _ c. c) random "user")
        (counted_others get create (λ _ c. c) random "user")
        random
        "user"
        ((tables, answered), 0))
get_or_create_user_id-Counts_example =
    get_or_create_user_id-Counts (stored_get text duplicate_key clock)
      (stored_create text duplicate_key clock) (λ _ c. c) random "user" (tables, answered)

abbrev denied : String
denied = "permission denied for table user_id_mappings"

get_or_create_user_id_exhausted_example :
    (get_or_create_user_id
      (stored_get text duplicate_key clock)
      (stored_create text duplicate_key clock)
      (refusing denied)
      random
      "user"
      (tables, answered)).0
    ≡ err (exhausted 100)
unfolding select_user_id
get_or_create_user_id_exhausted_example =
    get_or_create_user_id_exhausted text duplicate_key clock random "user" denied
      (record { no_pkey = refl; no_hash = refl; names_id = refl })
      (record { shows_unique = refl; shows_id = refl }) tables refl

abbrev parse_str : String → Option ℕ
parse_str s = if str_eq s "7" then some 7 else none

abbrev pub itself : String → String
itself s = s

cancel_measurement_handler-as_storage_example :
    cancel_measurement_handler
      (mock (timestamptz 25999))
      parse_str
      itself
      (λ s. s)
      "user"
      "7"
      (storage_of [] tables)
    ≡ as_storage [] (
        cancel_measurement_handler
          (postgres (λ rs. rs) text 25999)
          parse_str
          itself
          (λ t. t)
          "user"
          "7"
          tables)
cancel_measurement_handler-as_storage_example =
    cancel_measurement_handler-as_storage (λ rs. rs) Arranged-refl text refl 25999 [] parse_str
      itself (λ t. t) (λ s. s) (λ _. refl) "user" "7" tables

abbrev request : UpdateMeasurementStatusRequest
request = record { sent_probes = pos 3; is_complete = true }

one_row : OneRow "beta" tables
one_row m = ground arith

update_measurement_status-as_storage_example :
    update_measurement_status
      (mock (timestamptz 25999))
      parse_str
      itself
      (λ s. s)
      "beta"
      "7"
      request
      (storage_of [] tables)
    ≡ as_storage [] (
        update_measurement_status
          (postgres (λ rs. rs) text 25999)
          parse_str
          itself
          (λ t. t)
          "beta"
          "7"
          request
          tables)
update_measurement_status-as_storage_example =
    update_measurement_status-as_storage (λ rs. rs) Arranged-refl text refl 25999 [] parse_str
      itself (λ t. t) (λ s. s) (λ _. refl) "beta" "7" request tables one_row (refl, (refl, tt))
