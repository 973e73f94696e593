-- ===== src/Database/Postgres/Statuses/Groups.antt =====
-- The measurements that a list shows, before it is sorted: the rows of the view that meet the
-- conditions of the query are what the storage in memory keeps of its groups.
use saimiris_gateway.Prelude.{
  ℕ, String, Bool, ◌&&◌, ◌||◌, Option, none, some, List, [], ◌∷◌, map, filter, any, All, is_empty,
  leb, if◌then◌else◌, str_eq, eq_iff, ◌==◌, ◌≡◌, refl, sym, ap, ◌∙◌, arith, Bool-cases, inl, inr,
}
use saimiris_gateway.Database.{
  MeasurementTracking, MeasurementStatus, MeasurementState, MeasurementListFilter, complete,
  in_progress, cancelled, measurement_in_state,
}
use saimiris_gateway.Database.Tracking.{aggregate, of_user}
use saimiris_gateway.Database.Listing.{
  Group, push_row, group_rows, involves, in_states, is_since, is_until,
}
use saimiris_gateway.Database.Listing.Statuses.{groups_hold}
use saimiris_gateway.Database.Postgres.{Tables, timestamptz}
use saimiris_gateway.Database.Postgres.Statuses.{
  KeyGroup, group_row, group_by_key, status_row, measurement_status_view, where_listed, conditions,
  any_state, when_asked,
}
use saimiris_gateway.Database.Postgres.Statuses.Single.{status_row-aggregate}

states_lem :
    (states : List MeasurementState) (m : MeasurementStatus)
    → any_state states m ≡ any (measurement_in_state m) states
unfolding measurement_in_state
states_lem [] m = refl
states_lem (complete ∷ states) m = rw (states_lem states m) refl
states_lem (in_progress ∷ states) m = rw (states_lem states m) refl
states_lem (cancelled ∷ states) m = rw (states_lem states m) refl

abbrev rounded_bound : Option ℕ → Option ℕ
rounded_bound none = none
rounded_bound (some n) = some (timestamptz n)

-- The filter with the bounds of its window in whole microseconds.
abbrev pub rounded_filter : MeasurementListFilter → MeasurementListFilter
rounded_filter f = record f { since = rounded_bound f.since; until = rounded_bound f.until }

since_lem :
    (since : Option ℕ) (m : MeasurementStatus)
    → when_asked since (λ n. leb (timestamptz n) m.started_at) ≡ is_since (rounded_bound since) m
since_lem none m = refl
since_lem (some n) m = refl

until_lem :
    (until : Option ℕ) (m : MeasurementStatus)
    → when_asked until (λ n. leb m.started_at (timestamptz n)) ≡ is_until (rounded_bound until) m
until_lem none m = refl
until_lem (some n) m = refl

module _ (u : String) where
  -- The groups of the user, in the form of the storage in memory.
  abbrev user_groups : List KeyGroup → List Group
  user_groups [] = []
  user_groups (((m, v), rows) ∷ gs) =
      let rest = user_groups gs in if str_eq v u then (m, rows) ∷ rest else rest

  user_groups-group_row :
      (t : MeasurementTracking) (gs : List KeyGroup)
      → user_groups (group_row t gs)
        ≡ (if str_eq t.user_hash u then push_row t (user_groups gs) else user_groups gs)
  unfolding group_row push_row
  user_groups-group_row t [] = ground arith
  user_groups-group_row t (((m, v), (r, rs)) ∷ gs) =
      ground
        (arith, user_groups-group_row t gs, eq_iff v t.user_hash, eq_iff v u, eq_iff t.user_hash u)

  user_groups-group_by_key :
      (gs : List KeyGroup) (ts : List MeasurementTracking)
      → user_groups (group_by_key gs ts)
        ≡ group_rows (user_groups gs) (filter (λ t. str_eq t.user_hash u) ts)
  unfolding group_by_key group_rows
  user_groups-group_by_key gs [] = refl
  user_groups-group_by_key gs (t ∷ ts) =
      user_groups-group_by_key (group_row t gs) ts
      ∙ rw (user_groups-group_row t gs)
          (elim (Bool-cases (str_eq t.user_hash u)) [ inl e ↦ rw e refl | inr e ↦ rw e refl ])

  abbrev pub aggregate_of : Group → MeasurementStatus
  aggregate_of g = aggregate g.0 u g.1.0 g.1.1

  -- The conditions of the query but the user's hash.
  filter-status_row :
      (p : MeasurementStatus → Bool) (gs : List KeyGroup)
      → filter (λ m. str_eq m.user_hash u && p m) (map status_row gs)
        ≡ filter p (map aggregate_of (user_groups gs))
  filter-status_row p [] = refl
  filter-status_row p (((m, v), (r, rs)) ∷ gs) = elim (Bool-cases (str_eq v u)) [
    | inl e ↦
        let hashes : v ≡ u = (eq_iff v u).0 e in
        rw e (rw hashes (rw (status_row-aggregate m u r rs) (rw (filter-status_row p gs) refl)))
    | inr e ↦ rw e (filter-status_row p gs)
  ]

  any-filter :
      (m : ℕ) (a : String) (rows : List MeasurementTracking)
      → any (λ r. r.measurement_id == m && str_eq r.user_hash u && str_eq r.agent_id a) rows
        ≡ any (λ r. str_eq r.agent_id a) (filter (of_user m u) rows)
  any-filter m a [] = refl
  any-filter m a (r ∷ rs) = ground (arith, any-filter m a rs)

  agent_lem :
      (agent : Option String) (g : Group) (rows : List MeasurementTracking)
      → g.1.0 ∷ g.1.1 ≡ filter (of_user g.0 u) rows
      → when_asked agent (λ a.
        any (λ r. r.measurement_id == g.0 && str_eq r.user_hash u && str_eq r.agent_id a) rows)
        ≡ involves agent g
  agent_lem none g rows h = refl
  agent_lem (some a) g rows h = any-filter g.0 a rows ∙ sym (ap (any (λ r. str_eq r.agent_id a)) h)

  -- What the storage in memory keeps of its groups.
  abbrev pub kept : MeasurementListFilter → List Group → List MeasurementStatus
  kept f gs = filter (is_until f.until) (
      filter (is_since f.since)
        (filter (in_states f.status) (map aggregate_of (filter (involves f.agent) gs))))

  conditions_lem :
      (t : Tables) (f : MeasurementListFilter) (g : Group)
      → g.1.0 ∷ g.1.1 ≡ filter (of_user g.0 u) t.measurement_tracking
      → conditions t u f (aggregate_of g)
        ≡ in_states f.status (aggregate_of g)
          && is_since (rounded_bound f.since) (aggregate_of g)
          && is_until (rounded_bound f.until) (aggregate_of g)
          && involves f.agent g
  unfolding conditions aggregate
  conditions_lem t f g h = λ i.
      (is_empty f.status || states_lem f.status (aggregate_of g) i)
      && since_lem f.since (aggregate_of g) i
      && until_lem f.until (aggregate_of g) i
      && agent_lem f.agent g t.measurement_tracking h i

  filter-conditions :
      (t : Tables) (f : MeasurementListFilter) (gs : List Group)
      → All (λ (g : Group). g.1.0 ∷ g.1.1 ≡ filter (of_user g.0 u) t.measurement_tracking) gs
      → filter (conditions t u f) (map aggregate_of gs) ≡ kept (rounded_filter f) gs
  filter-conditions t f [] h = refl
  filter-conditions t f (g ∷ gs) (h, hs) =
      rw (conditions_lem t f g h) (elim (Bool-cases (involves f.agent g)) [
        | inr out ↦ rw out (ground (arith, filter-conditions t f gs hs))
        | inl there ↦ rw there (ground (arith, filter-conditions t f gs hs))
      ])

  -- The rows of the view that meet the conditions are the statuses that the storage in memory keeps
  -- for the filter in whole microseconds.
  pub filter-where_listed :
      (t : Tables) (f : MeasurementListFilter)
      → filter (where_listed t u f) (measurement_status_view t)
        ≡ kept
            (rounded_filter f)
            (group_rows [] (filter (λ r. str_eq r.user_hash u) t.measurement_tracking))
  unfolding measurement_status_view
  filter-where_listed t f =
      filter-status_row (conditions t u f) (group_by_key [] t.measurement_tracking)
      ∙ ap (λ gs. filter (conditions t u f) (map aggregate_of gs))
          (user_groups-group_by_key [] t.measurement_tracking)
      ∙ filter-conditions t f _ (groups_hold u t.measurement_tracking)
