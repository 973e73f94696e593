-- ===== src/Database/Postgres/Rows.antt =====
-- The table `measurement_tracking`: the methods of src/database.rs on single rows, with
-- `DatabaseImpl::Real`.
use saimiris_gateway.Prelude.{
  ℕ, String, Bool, true, false, not, ◌&&◌, Option, none, some, List, [], ◌∷◌, ◌++◌, ◌==◌, map,
  filter, any, length, ltb, codes, if◌then◌else◌, str_eq, Result, ok, err,
}
use saimiris_gateway.Prelude.Int.{ℤ, pos}
use saimiris_gateway.Database.{MeasurementTracking}
use saimiris_gateway.Database.Tracking.{sort_by_creation}
use saimiris_gateway.Database.Postgres.{
  Tables, SqlxError, Reply, timestamptz, execute, fetch, violates,
}

-- `WHERE measurement_id = $1 AND user_hash = $2`
abbrev pub where_user : ℕ → String → MeasurementTracking → Bool
where_user measurement_id user_hash r =
    r.measurement_id == measurement_id && str_eq r.user_hash user_hash

-- `WHERE measurement_id = $1 AND user_hash = $2 AND agent_id = $3`; these columns are UNIQUE.
abbrev pub where_key : ℕ → String → String → MeasurementTracking → Bool
where_key measurement_id user_hash agent_id r =
    where_user measurement_id user_hash r && str_eq r.agent_id agent_id

abbrev pub first_row : {A : Type 0} → List A → Option A
first_row [] = none
first_row (r ∷ rs) = some r

-- `agent_id` is a VARCHAR(255), which counts characters; `user_hash`, the 64 digits of a SHA-256, fits
-- its VARCHAR(64).
unfoldable pub insert_measurement_tracking :
    (String → String)
    → Reply
    → Tables
    → String
    → ℕ
    → String
    → ℤ
    → ℕ
    → ℕ
    → Result SqlxError MeasurementTracking × Tables
insert_measurement_tracking duplicate_key reply t user_hash measurement_id agent_id expected_probes
      new_id now =
    let r : MeasurementTracking = record {
      id = new_id;
      user_hash = user_hash;
      measurement_id = measurement_id;
      agent_id = agent_id;
      expected_probes = expected_probes;
      sent_probes = pos 0;
      is_complete = false;
      cancelled = false;
      created_at = timestamptz now;
      updated_at = timestamptz now;
    } in
    execute reply t (
      if ltb 255 (length (codes agent_id))
      then violates duplicate_key "character varying(255)" t
      else if any (where_key measurement_id user_hash agent_id) t.measurement_tracking
      then violates duplicate_key "measurement_tracking_measurement_id_user_hash_agent_id_key" t
      else (ok r, record t { measurement_tracking = t.measurement_tracking ++ r ∷ [] }))

-- An UPDATE: the rows that meet the condition are changed, all of them.
unfoldable pub update_where :
    (MeasurementTracking → Bool)
    → (MeasurementTracking → MeasurementTracking)
    → List MeasurementTracking
    → List MeasurementTracking
update_where condition change [] = []
update_where condition change (r ∷ rs) =
    let rest = update_where condition change rs in (if condition r then change r else r) ∷ rest

-- `fetch_one`: the first of the rows that the UPDATE returns.
abbrev pub fetch_one :
    Option MeasurementTracking → Tables → Tables → Result SqlxError MeasurementTracking × Tables
fetch_one (some r) before after = (ok r, after)
fetch_one none before after = (err SqlxError.row_not_found, before)

unfoldable pub update_tracking_row :
    Reply
    → Tables
    → ℕ
    → String
    → String
    → ℤ
    → Bool
    → ℕ
    → Result SqlxError MeasurementTracking × Tables
unfolding update_where
update_tracking_row reply t measurement_id user_hash agent_id sent_probes is_complete now =
    let condition = where_key measurement_id user_hash agent_id in
    let change : MeasurementTracking → MeasurementTracking = λ r. record r {
      sent_probes = sent_probes;
      is_complete = is_complete;
      updated_at = timestamptz now;
    } in
    execute reply t (
      fetch_one (first_row (map change (filter condition t.measurement_tracking))) t
        (record t { measurement_tracking = update_where condition change t.measurement_tracking }))

-- `rows_affected` counts the rows that meet the condition.
unfoldable pub update_cancelled : Reply → Tables → ℕ → String → ℕ → Result SqlxError ℕ × Tables
unfolding update_where
update_cancelled reply t measurement_id user_hash now =
    let condition : MeasurementTracking → Bool =
      λ r. where_user measurement_id user_hash r && not r.is_complete && not r.cancelled in
    let change : MeasurementTracking → MeasurementTracking =
      λ r. record r { cancelled = true; updated_at = timestamptz now } in
    execute reply t (
      ok (length (filter condition t.measurement_tracking)),
      record t { measurement_tracking = update_where condition change t.measurement_tracking },
    )

-- `scan` is the order in which the server comes by the rows.
module _ (scan : List MeasurementTracking → List MeasurementTracking) where
  -- `ORDER BY created_at`
  unfoldable pub select_tracking_rows :
      Reply → Tables → ℕ → String → Result SqlxError (List MeasurementTracking)
  select_tracking_rows reply t measurement_id user_hash = fetch reply (
      ok (
        sort_by_creation
          (scan (filter (where_user measurement_id user_hash) t.measurement_tracking))))

  unfoldable pub select_tracking_by_agent :
      Reply → Tables → ℕ → String → Result SqlxError (Option MeasurementTracking)
  select_tracking_by_agent reply t measurement_id agent_id = fetch reply (
      ok (
        first_row (
          scan (
            filter (λ r. r.measurement_id == measurement_id && str_eq r.agent_id agent_id)
              t.measurement_tracking))))
