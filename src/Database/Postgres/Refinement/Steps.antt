-- ===== src/Database/Postgres/Refinement/Steps.antt =====
-- Each method that writes, on the tables and on the storage in memory that they stand for.
use saimiris_gateway.Prelude.{
  ℕ, length, codes, ltb, ◌≤◌, ◌<◌, ◌^◌, String, Bool, false, List, any, All, Result, ok, err, ◌≡◌,
  refl, sym, ap, ◌∙◌, arith,
}
use saimiris_gateway.Prelude.Int.{ℤ, as_u32-as_i32, as_i32}
use saimiris_gateway.Database.{MockStorage, ProbeUsageRecord}
use saimiris_gateway.Database.Usage.{set_user_limit}
use saimiris_gateway.Database.Mappings.{create_user_id_mapping}
use saimiris_gateway.Database.Tracking.{
  create_measurement_tracking, update_measurement_probe_count, report, cancel_measurement,
}
use saimiris_gateway.Database.Postgres.{
  Tables, SqlxError, timestamptz, execute, Reply, answered, refused, lost, MappingRow,
}
use saimiris_gateway.Database.Postgres.Ids.{explain, explained, insert_user_id_mapping}
use saimiris_gateway.Database.Postgres.Limits.{upsert_user_limit}
use saimiris_gateway.Database.Postgres.Rows.{
  where_key, insert_measurement_tracking, update_tracking_row, update_cancelled,
}
use saimiris_gateway.Database.Postgres.Keys.{
  Keyed, update_first-update_where, cancel_rows-update_where,
}
use saimiris_gateway.Database.Postgres.Agreement.{
  HasI32, map-upsert, any_hash-lookup, any_id-entry, insert-entry,
}
use saimiris_gateway.Database.Postgres.Refinement.{
  Call, set_limit_to, create_id, track_row, report_row, cancel, Answer, failed, perform, told,
  promised, rounded, outcome, storage_of, IsSound, NamesConstraint, perform_postgres, Fits, lifted,
}

module _ (duplicate_key : String → String) (records : List ProbeUsageRecord) (t : Tables) where
  limit_step :
      (u : String) (l new_id now : ℕ)
      → l < 2 ^ 32
      → perform (storage_of records t) (set_limit_to u l new_id (timestamptz now))
        ≡ lifted duplicate_key records
            (perform_postgres duplicate_key answered t (set_limit_to u l new_id now))
  unfolding perform perform_postgres upsert_user_limit set_user_limit
  limit_step u l new_id now h =
      ground (arith, map-upsert u l new_id (timestamptz now) t.user_limits h)

  create_step :
      NamesConstraint duplicate_key
      → (u : String) (i now : ℕ) → All HasI32 t.user_id_mappings
      → i < 2 ^ 32
      → perform (storage_of records t) (create_id u i (timestamptz now))
        ≡ lifted duplicate_key records
            (perform_postgres duplicate_key answered t (create_id u i now))
  unfolding perform perform_postgres insert_user_id_mapping create_user_id_mapping
  create_step names u i now columns h =
      let new : MappingRow = record {
        user_hash = u;
        user_id = as_i32 i;
        created_at = timestamptz now;
      } in
      ground (
        arith,
        any_hash-lookup u t.user_id_mappings,
        any_id-entry i t.user_id_mappings columns h,
        insert-entry new t.user_id_mappings,
        as_u32-as_i32 i h,
        names.names_pkey,
        names.names_id,
        names.no_pkey,
        names.no_hash,
      )

  track_step :
      (u : String) (m : ℕ) (a : String) (n : ℤ) (new_id now : ℕ)
      → any (where_key m u a) t.measurement_tracking ≡ false
      → length (codes a) ≤ 255
      → perform (storage_of records t) (track_row u m a n new_id (timestamptz now))
        ≡ lifted duplicate_key records
            (perform_postgres duplicate_key answered t (track_row u m a n new_id now))
  unfolding perform perform_postgres insert_measurement_tracking create_measurement_tracking
  track_step u m a n new_id now h short =
      let held : ltb 255 (length (codes a)) ≡ false = ground arith in rw (held, h) refl

  report_step :
      (m : ℕ) (u a : String) (sent : ℤ) (done : Bool) (now : ℕ)
      → Keyed t.measurement_tracking
      → perform (storage_of records t) (report_row m u a sent done (timestamptz now))
        ≡ lifted duplicate_key records
            (perform_postgres duplicate_key answered t (report_row m u a sent done now))
  unfolding perform perform_postgres update_tracking_row update_measurement_probe_count
  report_step m u a sent done now h = ground (
    arith,
    update_first-update_where m u a (report sent done (timestamptz now)) t.measurement_tracking h,
  )

  cancel_step :
      (m : ℕ) (u : String) (now : ℕ)
      → perform (storage_of records t) (cancel m u (timestamptz now))
        ≡ lifted duplicate_key records (perform_postgres duplicate_key answered t (cancel m u now))
  unfolding perform perform_postgres update_cancelled cancel_measurement
  cancel_step m u now = rw cancel_rows-update_where refl

  answered_step :
      (c : Call)
      → NamesConstraint duplicate_key
      → IsSound t
      → Fits duplicate_key t c
      → perform (storage_of records t) (rounded c)
        ≡ lifted duplicate_key records (perform_postgres duplicate_key answered t c)
  answered_step (set_limit_to u l new_id now) names sound fits = limit_step u l new_id now fits
  answered_step (create_id u i now) names sound fits = create_step names u i now sound.columns fits
  answered_step (track_row u m a n new_id now) names sound fits =
      track_step u m a n new_id now fits.0 fits.1
  answered_step (report_row m u a sent done now) names sound fits =
      report_step m u a sent done now sound.keyed
  answered_step (cancel m u now) names sound fits = cancel_step m u now

  pub refused_step :
      (e : SqlxError) (c : Call)
      → perform_postgres duplicate_key (refused e) t c ≡ (failed (told c e), t)
  unfolding perform_postgres upsert_user_limit insert_user_id_mapping insert_measurement_tracking
      update_tracking_row update_cancelled
  refused_step e (set_limit_to u l new_id now) = refl
  refused_step e (create_id u i now) = refl
  refused_step e (track_row u m a n new_id now) = refl
  refused_step e (report_row m u a sent done now) = refl
  refused_step e (cancel m u now) = refl

  lost_explained :
      (e : SqlxError) (r : Result SqlxError (Unit {0}) × Tables)
      → outcome (λ _. Answer.created) (explained (execute (lost e) t r))
        ≡ (failed (explain e), (outcome (λ _. Answer.created) (explained r)).1)
  lost_explained e (ok u, t') = refl
  lost_explained e (err x, t') = refl

  lost_outcome :
      {A : Type 0} (f : A → Answer) (e : SqlxError) (r : Result SqlxError A × Tables)
      → outcome f (execute (lost e) t r) ≡ (failed e, (outcome f (execute answered t r)).1)
  lost_outcome f e (ok a, t') = refl
  lost_outcome f e (err x, t') = refl

  pub lost_step :
      (e : SqlxError) (c : Call)
      → perform_postgres duplicate_key (lost e) t c
        ≡ (failed (told c e), (perform_postgres duplicate_key answered t c).1)
  unfolding perform_postgres upsert_user_limit insert_user_id_mapping insert_measurement_tracking
      update_tracking_row update_cancelled
  lost_step e (set_limit_to u l new_id now) = refl
  lost_step e (create_id u i now) = lost_explained e _
  lost_step e (track_row u m a n new_id now) = lost_outcome Answer.row e _
  lost_step e (report_row m u a sent done now) = lost_outcome Answer.row e _
  lost_step e (cancel m u now) = refl

  told-rounded : (c : Call) (e : SqlxError) → told (rounded c) e ≡ told c e
  told-rounded (set_limit_to u l new_id now) e = refl
  told-rounded (create_id u i now) e = refl
  told-rounded (track_row u m a n new_id now) e = refl
  told-rounded (report_row m u a sent done now) e = refl
  told-rounded (cancel m u now) e = refl

  -- A method with its statement answered, refused or lost does what is promised of the storage.
  pub promised_step :
      (reply : Reply) (c : Call)
      → NamesConstraint duplicate_key
      → IsSound t
      → Fits duplicate_key t c
      → promised reply (storage_of records t) (rounded c)
        ≡ lifted duplicate_key records (perform_postgres duplicate_key reply t c)
  promised_step answered c names sound fits = answered_step c names sound fits
  promised_step (refused e) c names sound fits =
      rw (told-rounded c e) (sym (ap (lifted duplicate_key records) (refused_step e c)))
  promised_step (lost e) c names sound fits =
      rw (told-rounded c e) (
        ap (λ (r : Answer × MockStorage). (failed (told c e), r.1))
          (answered_step c names sound fits))
      ∙ sym (ap (lifted duplicate_key records) (lost_step e c))
