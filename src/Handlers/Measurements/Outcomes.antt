-- ===== src/Handlers/Measurements/Outcomes.antt =====
-- What the handlers over the tracking rows answer and leave, on the database in memory and with no
-- other request in between.
use saimiris_gateway.Prelude.{
  ℕ, zero, suc, String, true, false, not, ◌&&◌, Option, none, some, List, [], ◌∷◌, ◌≡◌, refl, sym,
  subst, ◌∙◌, ◌≢◌, inl, inr, arith, str_eq, eq_iff, eq_refl, ◌==◌, ok, err, length, filter, find,
  Bool-cases,
}
use saimiris_gateway.Http.{responds, not_found}
use saimiris_gateway.Database.{MeasurementTracking, MeasurementStatus, MockStorage}
use saimiris_gateway.Database.Tracking.{
  of_user, of_agent, is_open, report, update_first, update_measurement_probe_count, cancel_rows,
  cancel_measurement, status_of, aggregate, get_measurement_status,
  get_measurement_tracking_by_agent,
}
use saimiris_gateway.Database.Tracking.Terminal.{
  AllTerminal, Reflects, get_measurement_status-Reflects,
}
use saimiris_gateway.Database.Tracking.Cancellation.{cancel_measurement-Terminal}
use saimiris_gateway.Handlers.Measurements.{
  mock, CancelReply, already_terminal, cancel_reply, cancel_measurement_handler,
  UpdateMeasurementStatusRequest, UpdateReply, update_measurement_status,
}

cancel_rows_kept :
    (m : ℕ) (u : String) (now : ℕ) (ts : List MeasurementTracking)
    → length (filter (of_user m u) (cancel_rows m u now ts).1) ≡ length (filter (of_user m u) ts)
unfolding cancel_rows
cancel_rows_kept m u now [] = refl
cancel_rows_kept m u now (t ∷ ts) = ground (arith, cancel_rows_kept m u now ts)

-- Where no row is open, all rows of the user's measurement are terminal.
none_open :
    (m : ℕ) (u : String) (ts : List MeasurementTracking)
    → length (filter (is_open m u) ts) ≡ 0
    → AllTerminal (filter (of_user m u) ts)
none_open m u [] h = tt
none_open m u (t ∷ ts) h = ground (arith, none_open m u ts)

status_kept :
    (m : ℕ) (u : String) (rs ts : List MeasurementTracking) (st : MeasurementStatus)
    → length ts ≡ length rs
    → status_of m u rs ≡ some st
    → (st' : MeasurementStatus) × (status_of m u ts ≡ some st')
unfolding status_of
status_kept m u [] ts st e h = absurd cc
status_kept m u (r ∷ rs) [] st e h = absurd (omega arith)
status_kept m u (r ∷ rs) (t ∷ ts) st e h = (aggregate m u t ts, refl)

cancelled_status :
    (s : MockStorage) (m : ℕ) (u : String) (now : ℕ) (st : MeasurementStatus)
    → get_measurement_status s m u ≡ some st
    → (st' : MeasurementStatus) × (get_measurement_status (cancel_measurement s m u now).1 m u
        ≡ some st')
      × (st'.measurement_complete ≡ true)
unfolding get_measurement_status cancel_measurement
cancelled_status s m u now st h =
    let (st', e) =
      status_kept m u (filter (of_user m u) s.measurement_tracking) _ st
        (cancel_rows_kept m u now s.measurement_tracking) h in
    (st', e, (cancel_measurement-Terminal s m u now).1 st' e)

-- A measurement that is not complete has a row for a cancellation to change.
some_open :
    (s : MockStorage) (m : ℕ) (u : String) (now : ℕ) (st : MeasurementStatus)
    → get_measurement_status s m u ≡ some st
    → st.measurement_complete ≡ false
    → (cancel_measurement s m u now).0 ≢ 0
some_open s m u now st h open_ e =
    let reflects =
      subst (Reflects (filter (of_user m u) s.measurement_tracking)) h
        (get_measurement_status-Reflects s m u) in
    let done : st.measurement_complete ≡ true =
      reflects.2.1 (
        none_open m u s.measurement_tracking (sym (cancel_measurement-Terminal s m u now).0 ∙ e)) in
    absurd cc

cancel_reply_cancelled :
    (m n : ℕ)
    → n ≢ 0
    → ((cancel_reply m n).cancelled ≡ true) × ((cancel_reply m n).agents_cancelled ≡ n)
cancel_reply_cancelled m zero h = absurd (h refl)
cancel_reply_cancelled m (suc n) h = (refl, refl)

-- The first row of an agent's measurement is the one that a report under its user's hash changes.
update_first_found :
    (m : ℕ) (a : String) (f : MeasurementTracking → MeasurementTracking)
    (ts : List MeasurementTracking) (t : MeasurementTracking)
    → ((r : MeasurementTracking)
        → ((f r).measurement_id ≡ r.measurement_id) × ((f r).agent_id ≡ r.agent_id))
    → find (λ r. r.measurement_id == m && str_eq r.agent_id a) ts ≡ some t
    → (ts' : List MeasurementTracking) × (update_first (of_agent m t.user_hash a) f ts
        ≡ some (f t, ts'))
      × (find (λ r. r.measurement_id == m && str_eq r.agent_id a) ts' ≡ some (f t))
unfolding update_first
update_first_found m a f [] t same h = absurd cc
update_first_found m a f (r ∷ ts) t same h =
    elim (Bool-cases (r.measurement_id == m && str_eq r.agent_id a)) [
      | inl hit ↦
          let first : r ≡ t = ground arith in
          subst
            (λ x.
              (ts' : List MeasurementTracking) × (update_first (of_agent m x.user_hash a) f (r ∷ ts)
                ≡ some (f x, ts'))
              × (find (λ y. y.measurement_id == m && str_eq y.agent_id a) ts' ≡ some (f x)))
            first (f r ∷ ts, ground (arith, eq_refl r.user_hash), ground (arith, same r))
      | inr miss ↦
          let (ts', e, k) = update_first_found m a f ts t same (ground arith) in
          (r ∷ ts', ground (arith, eq_iff r.user_hash t.user_hash), ground arith)
    ]

module _ (parse_str : String → Option ℕ) (hash_user_identifier : String → String) where
  -- On the database in memory, with a measurement id that parses and no other request in between:
  -- a request to cancel a measurement of which the user has no row is answered with 404 and changes
  -- nothing. Any other is answered with a reply, the measurement is complete afterwards, and the
  -- reply says that this request cancelled it exactly if it was not complete before.
  pub cancel_measurement_handler-IsComplete :
      (now : ℕ) (sub measurement_id : String) (m : ℕ) (s : MockStorage)
      → parse_str measurement_id ≡ some m
      → (get_measurement_status s m (hash_user_identifier sub) ≡ none
          → cancel_measurement_handler
              (mock now)
              parse_str
              hash_user_identifier
              (λ t. t)
              sub
              measurement_id
              s
            ≡ (err (responds not_found "Measurement not found"), s))
        × ((st : MeasurementStatus)
            → get_measurement_status s m (hash_user_identifier sub) ≡ some st
            → (reply : CancelReply) × (s' : MockStorage) × (st' : MeasurementStatus)
              × (cancel_measurement_handler
                    (mock now)
                    parse_str
                    hash_user_identifier
                    (λ t. t)
                    sub
                    measurement_id
                    s
                  ≡ (ok reply, s'))
              × (get_measurement_status s' m (hash_user_identifier sub) ≡ some st')
              × (st'.measurement_complete ≡ true)
              × (reply.cancelled ≡ not st.measurement_complete))
  unfolding cancel_measurement_handler
  cancel_measurement_handler-IsComplete now sub measurement_id m s p = (
    λ h. ground arith,
    λ st h. elim (Bool-cases st.measurement_complete) [
      | inl done ↦ (already_terminal m st, s, st, ground arith, h, done, rw done refl)
      | inr running ↦
          let u = hash_user_identifier sub in
          let (st', e, complete) = cancelled_status s m u now st h in
          (
            cancel_reply m (cancel_measurement s m u now).0,
            (cancel_measurement s m u now).1,
            st',
            ground arith,
            e,
            complete,
            (cancel_reply_cancelled m _ (some_open s m u now st h running)).0 ∙ rw running refl,
          )
    ],
  )

  -- On the database in memory, with a measurement id that parses and no other request in between:
  -- a report for a measurement and an agent without a row is answered with 404 and changes nothing.
  -- Any other is answered with what it says, and the agent's row then says the same; it never ends
  -- in the 500 of a missing row.
  pub update_measurement_status-recorded :
      (now : ℕ) (agent_id measurement_id : String) (m : ℕ)
      (request : UpdateMeasurementStatusRequest) (s : MockStorage)
      → parse_str measurement_id ≡ some m
      → (get_measurement_tracking_by_agent s m agent_id ≡ none
          → update_measurement_status
              (mock now)
              parse_str
              hash_user_identifier
              (λ t. t)
              agent_id
              measurement_id
              request
              s
            ≡ (err (responds not_found "Measurement tracking entry not found for this agent"), s))
        × ((t : MeasurementTracking)
            → get_measurement_tracking_by_agent s m agent_id ≡ some t
            → (reply : UpdateReply) × (s' : MockStorage) × (update_measurement_status
                  (mock now)
                  parse_str
                  hash_user_identifier
                  (λ t. t)
                  agent_id
                  measurement_id
                  request
                  s
                ≡ (ok reply, s'))
              × (reply.sent_probes ≡ request.sent_probes)
              × (reply.is_complete ≡ request.is_complete)
              × (get_measurement_tracking_by_agent s' m agent_id
                  ≡ some (report request.sent_probes request.is_complete now t)))
  unfolding update_measurement_status update_measurement_probe_count
      get_measurement_tracking_by_agent
  update_measurement_status-recorded now agent_id measurement_id m request s p = (
    λ h. ground arith,
    λ t h.
        let (ts', e, k) =
          update_first_found m agent_id (report request.sent_probes request.is_complete now)
            s.measurement_tracking t (λ r. (refl, refl)) h in
        (
          record {
            measurement_id = measurement_id;
            agent_id = agent_id;
            sent_probes = request.sent_probes;
            is_complete = request.is_complete;
            updated_at = now;
          },
          record s { measurement_tracking = ts' },
          ground arith,
          refl,
          refl,
          k,
        ),
  )
