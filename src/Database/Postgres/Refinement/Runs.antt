-- ===== src/Database/Postgres/Refinement/Runs.antt =====
-- Any methods that write, called one after the other, on the tables and on the storage in memory.
use saimiris_gateway.Prelude.{
  subst, str_eq, ltb, length, codes, ℕ, String, Bool, true, List, [], ◌∷◌, map, any, All-append,
  filter, ◌≡◌, refl, sym, Bool-cases, Option-cases, inl, inr,
}
use saimiris_gateway.Prelude.Int.{ℤ, as_i32}
use saimiris_gateway.Database.{MockStorage, ProbeUsageRecord}
use saimiris_gateway.Database.Tracking.{report, is_open}
use saimiris_gateway.Database.Postgres.{Tables, Reply, timestamptz, answered, refused, lost}
use saimiris_gateway.Database.Postgres.Ids.{eq_ℤ, insert_user_id_mapping}
use saimiris_gateway.Database.Postgres.Limits.{upsert_user_limit}
use saimiris_gateway.Database.Postgres.Rows.{
  where_key, first_row, insert_measurement_tracking, update_tracking_row, update_cancelled,
}
use saimiris_gateway.Database.Postgres.Keys.{Keyed-append, Keyed-update_where}
use saimiris_gateway.Database.Postgres.Agreement.{HasI32, as_i32-IsI32}
use saimiris_gateway.Database.Postgres.Refinement.Steps.{promised_step, lost_step, refused_step}
use saimiris_gateway.Database.Postgres.Refinement.{
  Call, set_limit_to, create_id, track_row, report_row, cancel, Answer, promised, rounded,
  storage_of, IsSound, NamesConstraint, perform_postgres, Fits,
}

-- The constraints hold after an answered call.
module _ (duplicate_key : String → String) (t : Tables) (sound : IsSound t) where
  create-IsSound :
      (u : String) (i now : ℕ)
      → IsSound (perform_postgres duplicate_key answered t (create_id u i now)).1
  unfolding perform_postgres insert_user_id_mapping
  create-IsSound u i now = elim (Bool-cases (any (λ r. str_eq r.user_hash u) t.user_id_mappings)) [
    | inl known ↦ rw known sound
    | inr new ↦ elim (Bool-cases (any (λ r. eq_ℤ r.user_id (as_i32 i)) t.user_id_mappings)) [
      | inl used ↦ rw (new, used) sound
      | inr free ↦
          rw (new, free)
            (record {
              columns = All-append HasI32 t.user_id_mappings _ sound.columns (as_i32-IsI32 i, tt);
              keyed = sound.keyed;
            })
    ]
  ]

  track-IsSound :
      (u : String) (m : ℕ) (a : String) (n : ℤ) (new_id now : ℕ)
      → IsSound (perform_postgres duplicate_key answered t (track_row u m a n new_id now)).1
  unfolding perform_postgres insert_measurement_tracking
  track-IsSound u m a n new_id now =
      elim (Bool-cases (any (where_key m u a) t.measurement_tracking)) [
        | inl known ↦ elim (Bool-cases (ltb 255 (length (codes a)))) [
          | inl long ↦ rw long sound
          | inr held ↦ rw (held, known) sound
        ]
        | inr new ↦ elim (Bool-cases (ltb 255 (length (codes a)))) [
          | inl long ↦ rw long sound
          | inr held ↦
              rw (held, new)
                (record {
                  columns = sound.columns;
                  keyed = Keyed-append _ t.measurement_tracking new sound.keyed;
                })
        ]
      ]

  report-IsSound :
      (m : ℕ) (u a : String) (sent : ℤ) (done : Bool) (now : ℕ)
      → IsSound (perform_postgres duplicate_key answered t (report_row m u a sent done now)).1
  unfolding perform_postgres update_tracking_row
  report-IsSound m u a sent done now =
      elim (Option-cases (
        first_row (
          map (report sent done (timestamptz now))
            (filter (where_key m u a) t.measurement_tracking)))) [
              | inl missing ↦ rw missing sound
              | inr (r, found) ↦ rw found (record {
                columns = sound.columns;
                keyed =
                    Keyed-update_where (where_key m u a) (report sent done (timestamptz now))
                      (λ _. (refl, refl, refl)) t.measurement_tracking sound.keyed;
              })
            ]

  answered-IsSound : (c : Call) → IsSound (perform_postgres duplicate_key answered t c).1
  unfolding perform_postgres upsert_user_limit update_cancelled
  answered-IsSound (set_limit_to u l new_id now) = record {
    columns = sound.columns;
    keyed = sound.keyed;
  }
  answered-IsSound (create_id u i now) = create-IsSound u i now
  answered-IsSound (track_row u m a n new_id now) = track-IsSound u m a n new_id now
  answered-IsSound (report_row m u a sent done now) = report-IsSound m u a sent done now
  answered-IsSound (cancel m u now) = record {
    columns = sound.columns;
    keyed =
        Keyed-update_where (is_open m u)
          (λ r. record r { cancelled = true; updated_at = timestamptz now })
          (λ _. (refl, refl, refl)) t.measurement_tracking sound.keyed;
  }

  pub perform_postgres-IsSound :
      (reply : Reply) (c : Call) → IsSound (perform_postgres duplicate_key reply t c).1
  perform_postgres-IsSound answered c = answered-IsSound c
  perform_postgres-IsSound (refused e) c =
      subst (λ (r : Answer × Tables). IsSound r.1) (sym (refused_step duplicate_key [] t e c)) sound
  perform_postgres-IsSound (lost e) c =
      subst (λ (r : Answer × Tables). IsSound r.1) (sym (lost_step duplicate_key [] t e c))
        (answered-IsSound c)

unfoldable pub run_promised : List (Reply × Call) → MockStorage → List Answer × MockStorage
run_promised [] s = ([], s)
run_promised ((reply, c) ∷ calls) s =
    let (a, s') = promised reply s c in
    let (answers, last) = run_promised calls s' in (a ∷ answers, last)

module _ (duplicate_key : String → String) where
  unfoldable pub run_postgres : List (Reply × Call) → Tables → List Answer × Tables
  run_postgres [] t = ([], t)
  run_postgres ((reply, c) ∷ calls) t =
      let (a, t') = perform_postgres duplicate_key reply t c in
      let (answers, last) = run_postgres calls t' in (a ∷ answers, last)

  -- Each call fits the tables that it meets.
  abbrev pub AllFit : List (Reply × Call) → Tables → Type 0
  AllFit [] t = Unit
  AllFit ((reply, c) ∷ calls) t =
      Fits duplicate_key t c × AllFit calls (perform_postgres duplicate_key reply t c).1

  -- Any methods that write, called one after the other on sound tables, with their statements
  -- answered, refused or lost: the answers are those of the storage in memory that the tables stand
  -- for, called with the same times in whole microseconds, and an error where the statement has
  -- failed; a refused statement changes nothing; and the tables then stand for the storage in memory
  -- that is left, and are sound. Each call has numbers of 32 bits, and one that makes a tracking row
  -- a new measurement, user and agent, with an agent's id of at most 255 characters.
  pub run_postgres-run_promised :
      NamesConstraint duplicate_key
      → (records : List ProbeUsageRecord) (calls : List (Reply × Call)) (t : Tables) → IsSound t
      → AllFit calls t
      → (run_promised (map (λ e. (e.0, rounded e.1)) calls) (storage_of records t)
          ≡ ((run_postgres calls t).0, storage_of records (run_postgres calls t).1))
        × IsSound (run_postgres calls t).1
  unfolding run_promised run_postgres
  run_postgres-run_promised names records [] t sound fits = (refl, sound)
  run_postgres-run_promised names records ((reply, c) ∷ calls) t sound (fits, all_fit) =
      let (same, kept) =
        run_postgres-run_promised names records calls (perform_postgres duplicate_key reply t c).1
          (perform_postgres-IsSound duplicate_key t sound reply c) all_fit in
      (rw (promised_step duplicate_key records t reply c names sound fits, same) refl, kept)
