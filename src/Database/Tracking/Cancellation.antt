-- ===== src/Database/Tracking/Cancellation.antt =====
-- The effect of a cancellation on the rows and on the status.
use saimiris_gateway.Prelude.{
  ℕ, String, true, false, ◌&&◌, some, List, [], ◌∷◌, ◌≡◌, refl, ap, subst, arith, str_eq, eq_iff,
  ◌==◌, length, filter,
}
use saimiris_gateway.Database.{MeasurementTracking, MeasurementStatus, MockStorage}
use saimiris_gateway.Database.Tracking.{
  is_open, of_user, cancel_rows, cancel_measurement, status_of, get_measurement_status,
}
use saimiris_gateway.Database.Tracking.Terminal.{
  AllTerminal, Reflects, get_measurement_status-Reflects,
}

cancel_rows_count :
    (m : ℕ) (u : String) (now : ℕ) (ts : List MeasurementTracking)
    → (cancel_rows m u now ts).0 ≡ length (filter (is_open m u) ts)
unfolding cancel_rows
cancel_rows_count m u now [] = refl
cancel_rows_count m u now (t ∷ ts) = ground (arith, cancel_rows_count m u now ts)

cancel_rows_terminal :
    (m : ℕ) (u : String) (now : ℕ) (ts : List MeasurementTracking)
    → AllTerminal (filter (of_user m u) (cancel_rows m u now ts).1)
unfolding cancel_rows
cancel_rows_terminal m u now [] = tt
cancel_rows_terminal m u now (t ∷ ts) = ground (arith, cancel_rows_terminal m u now ts)

cancel_rows_again :
    (m : ℕ) (u : String) (now later : ℕ) (ts : List MeasurementTracking)
    → cancel_rows m u later (cancel_rows m u now ts).1 ≡ (0, (cancel_rows m u now ts).1)
unfolding cancel_rows
cancel_rows_again m u now later [] = refl
cancel_rows_again m u now later (t ∷ ts) = ground (arith, cancel_rows_again m u now later ts)

cancel_rows_others :
    (m n : ℕ) (u v : String) (now : ℕ) (ts : List MeasurementTracking)
    → ((m == n) && str_eq u v) ≡ false
    → filter (of_user n v) (cancel_rows m u now ts).1 ≡ filter (of_user n v) ts
unfolding cancel_rows
cancel_rows_others m n u v now [] h = refl
cancel_rows_others m n u v now (t ∷ ts) h = ground (
  arith,
  cancel_rows_others m n u v now ts h,
  eq_iff u v,
  eq_iff t.user_hash u,
  eq_iff t.user_hash v,
)

-- A cancellation answers with the number of rows that were neither complete nor cancelled, and
-- after it the measurement, if there is one, is complete.
pub cancel_measurement-Terminal :
    (s : MockStorage) (m : ℕ) (u : String) (now : ℕ)
    → ((cancel_measurement s m u now).0 ≡ length (filter (is_open m u) s.measurement_tracking))
      × ((st : MeasurementStatus)
          → get_measurement_status (cancel_measurement s m u now).1 m u ≡ some st
          → st.measurement_complete ≡ true)
unfolding cancel_measurement
cancel_measurement-Terminal s m u now = (
  cancel_rows_count m u now s.measurement_tracking,
  λ st e.
      (subst (Reflects (filter (of_user m u) (cancel_rows m u now s.measurement_tracking).1)) e
          (get_measurement_status-Reflects (cancel_measurement s m u now).1 m u)).2.1
        (cancel_rows_terminal m u now s.measurement_tracking),
)

-- A second cancellation of the same measurement changes no row and answers 0.
pub cancel_measurement_again :
    (s : MockStorage) (m : ℕ) (u : String) (now later : ℕ)
    → cancel_measurement (cancel_measurement s m u now).1 m u later
      ≡ (0, (cancel_measurement s m u now).1)
unfolding cancel_measurement
cancel_measurement_again s m u now later =
    ground (arith, cancel_rows_again m u now later s.measurement_tracking)

-- A cancellation leaves the status of every other measurement, and of the same one for another
-- user, as it was.
pub cancel_measurement_others :
    (s : MockStorage) (m n : ℕ) (u v : String) (now : ℕ)
    → ((m == n) && str_eq u v) ≡ false
    → get_measurement_status (cancel_measurement s m u now).1 n v ≡ get_measurement_status s n v
unfolding cancel_measurement get_measurement_status
cancel_measurement_others s m n u v now h =
    ap (status_of n v) (cancel_rows_others m n u v now s.measurement_tracking h)
