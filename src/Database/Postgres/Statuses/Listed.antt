-- ===== src/Database/Postgres/Statuses/Listed.antt =====
-- The list of a user's measurements, from the view and in memory.
use saimiris_gateway.Prelude.{
  ℕ, String, List, [], ◌∷◌, take, filter, str_eq, ok, ◌≡◌, refl, sym, ap, ◌∙◌, subst,
}
use saimiris_gateway.Prelude.Int.{ℤ, pos}
use saimiris_gateway.Database.{MeasurementStatus, MeasurementListFilter, ProbeUsageRecord}
use saimiris_gateway.Database.Listing.{
  Group, group_rows, involves, in_states, is_since, is_until, insert_measurement, sort_key,
  sort_measurements, as_usize, list_user_measurements,
}
use saimiris_gateway.Database.Postgres.{Tables, answered}
use saimiris_gateway.Database.Postgres.Refinement.{storage_of}
use saimiris_gateway.Database.Postgres.Statuses.{
  where_listed, measurement_status_view, limit_rows, select_user_measurements,
}
use saimiris_gateway.Database.Postgres.Statuses.Groups.{
  rounded_filter, aggregate_of, kept, filter-where_listed,
}
use saimiris_gateway.Database.Postgres.Statuses.Arrangement.{
  Arranged, map-Arranged, filter-Arranged, KeysApart, sort_measurements-Arranged,
}

kept-Arranged :
    (u : String) (f : MeasurementListFilter) {gs hs : List Group}
    → Arranged gs hs
    → Arranged (kept u f gs) (kept u f hs)
kept-Arranged u f h = filter-Arranged (is_until f.until) (
    filter-Arranged (is_since f.since) (
      filter-Arranged (in_states f.status)
        (map-Arranged (aggregate_of u) (filter-Arranged (involves f.agent) h))))

limit_lem :
    (negative_limit : String) (limit : ℤ) (n : ℕ) (ms : List MeasurementStatus)
    → limit ≡ pos n
    → limit_rows negative_limit limit ms ≡ ok (take (as_usize limit) ms)
limit_lem negative_limit limit n ms h = rw h refl

insert_rounded :
    (f : MeasurementListFilter) (m : MeasurementStatus) (ms : List MeasurementStatus)
    → insert_measurement (rounded_filter f) m ms ≡ insert_measurement f m ms
unfolding insert_measurement
insert_rounded f m [] = refl
insert_rounded f m (n ∷ ms) = rw (insert_rounded f m ms) refl

-- The order does not depend on the window.
sort_rounded :
    (f : MeasurementListFilter) (ms : List MeasurementStatus)
    → sort_measurements (rounded_filter f) ms ≡ sort_measurements f ms
unfolding sort_measurements
sort_rounded f [] = refl
sort_rounded f (m ∷ ms) = rw (sort_rounded f ms) (insert_rounded f m (sort_measurements f ms))

-- For a limit that is not negative, and where the query orders the measurements that it asks for
-- without a tie: the server, in whatever order it comes by the rows, and the storage in memory, in
-- whatever order its hash map gives the entries, give the same list, where memory is asked for the
-- window with its bounds in whole microseconds.
pub select-list_user_measurements :
    (scan : List MeasurementStatus → List MeasurementStatus)
    (scans : (ms : List MeasurementStatus) → Arranged ms (scan ms))
    (iterate : List Group → List Group) (iterates : (gs : List Group) → Arranged gs (iterate gs))
    (negative_limit : String) (records : List ProbeUsageRecord) (t : Tables) (u : String)
    (f : MeasurementListFilter) (n : ℕ)
    → f.limit ≡ pos n
    → KeysApart (sort_key f.sort) (filter (where_listed t u f) (measurement_status_view t))
    → select_user_measurements scan negative_limit answered t u f
      ≡ ok (list_user_measurements iterate (storage_of records t) u (rounded_filter f))
unfolding select_user_measurements list_user_measurements
select-list_user_measurements scan scans iterate iterates negative_limit records t u f n limit
      apart =
    let rows = filter (where_listed t u f) (measurement_status_view t) in
    let groups = group_rows [] (filter (λ r. str_eq r.user_hash u) t.measurement_tracking) in
    let g = rounded_filter f in
    let same : rows ≡ kept u g groups = filter-where_listed u t f in
    let sorted : sort_measurements f (scan rows) ≡ sort_measurements g (kept u g (iterate groups)) =
      sym (sort_measurements-Arranged f (scans rows) apart)
      ∙ ap (sort_measurements f) same
      ∙ sort_measurements-Arranged f (kept-Arranged u g (iterates groups))
          (subst (KeysApart (sort_key f.sort)) same apart)
      ∙ sym (sort_rounded f (kept u g (iterate groups))) in
    ap (limit_rows negative_limit f.limit) sorted ∙ limit_lem negative_limit f.limit n _ limit
