-- ===== src/Submit/Publishing.antt =====
-- What the part of `submit_probes` from the check of the limit on leaves.
use saimiris_gateway.Prelude.{
  ℕ, ◌*◌, ◌%◌, ◌^◌, String, Bool, true, false, Option, List, ◌++◌, ◌≡◌, sym, ap, ◌∙◌, length,
  is_empty, not, Result, ok,
}
use saimiris_gateway.Prelude.Int.{as_i32}
use saimiris_gateway.Net.{IpAddr}
use saimiris_gateway.Http.{bind_ok, ◌>>=◌, too_many_requests, bad_request}
use saimiris_gateway.Agent.{AgentStore}
use saimiris_gateway.Prefix.Ipnet.{Ipnet}
use saimiris_gateway.Probe.Wire.{Message}
use saimiris_gateway.Probe.{ProbeError}
use saimiris_gateway.Probe.Batch.{returned, deserialize_probes_batch}
use saimiris_gateway.Submit.{
  AgentMetadata, KafkaMessage, SubmitProbesRequest, SubmitProbesResponse, limit_check_failed,
  limit_exceeded, no_healthy_agents, Database, World, H, assign_agents, unless, or_500, when,
  max_batch_bytes, dispatch,
}
use saimiris_gateway.Submit.Messages.{
  messages, sent_eq, database_eq, send_all, track_sent, track_database, rows_for,
}
use saimiris_gateway.Submit.Steps.{unless_ok, or_500_ok, batches_of_ok, allowed, when-none}

module _ (ip_from_str : String → Option IpAddr)
    (write_message : Message → Result ProbeError (List ℕ)) (ipnet : Ipnet)
    (hash_user_identifier : String → String) {S : Type 0} (db : Database S)
    (deliver : ℕ → Option String) (checked assigned : ℕ → AgentStore) (measurement_id : ℕ) where
  -- The database after a row for each agent and the record of the whole.
  abbrev pub stored_by : String → SubmitProbesRequest → List AgentMetadata → S → S
  stored_by sub request agents s =
      (db.record_probe_usage
        (rows_for db (hash_user_identifier sub) measurement_id (as_i32 (length request.probes))
          agents s)
        sub measurement_id (as_i32 (length request.probes * length agents))).1

  abbrev sends : String → SubmitProbesRequest → List AgentMetadata → H S SubmitProbesResponse
  sends =
      dispatch ip_from_str write_message ipnet hash_user_identifier db deliver checked assigned
        measurement_id

  -- What the part after the checks leaves.
  abbrev Published :
      String
      → SubmitProbesRequest
      → List AgentMetadata
      → SubmitProbesResponse
      → List KafkaMessage
      → S
      → World S
      → Type 0
  Published sub request agents r before s w' =
      (bs : List (List ℕ)) × (deserialize_probes_batch ip_from_str write_message request.probes
          max_batch_bytes
        ≡ returned (ok bs))
      × (r.agents ≡ agents)
      × (r.probes ≡ length request.probes * length agents)
      × (r.id ≡ measurement_id)
      × (w'.sent ≡ before ++ messages measurement_id request.metadata bs)
      × (w'.database ≡ stored_by sub request agents s)

  dispatch_ok :
      (sub : String) (request : SubmitProbesRequest) (agents : List AgentMetadata)
      (r : SubmitProbesResponse) (w w' : World S)
      → sends sub request agents w ≡ (ok r, w')
      → Published sub request agents r w.sent w.database w'
  unfolding dispatch
  dispatch_ok sub request agents r w w' h =
      let (bs, w1, h1, k1) = bind_ok _ _ w w' r h in
      let (u2, w2, h2, k2) = bind_ok _ _ w1 w' r k1 in
      let (u3, w3, h3, k3) = bind_ok _ _ w2 w' r k2 in
      let (u4, w4, h4, k4) = bind_ok _ _ w3 w' r k3 in
      let value : record {
        id = measurement_id;
        probes = length request.probes * length agents;
        agents = agents;
      }
          ≡ r =
        cc in
      let (serialized, same) =
        batches_of_ok
          (deserialize_probes_batch ip_from_str write_message request.probes max_batch_bytes) w w1
          bs h1 in
      let tracked : w2.sent ≡ w1.sent =
        sent_eq Unit _ (ok u2) w2 h2
        ∙ (track_sent db (hash_user_identifier sub) measurement_id (as_i32 (length request.probes))
            agents w1).0 in
      let all = send_all deliver measurement_id request.metadata bs w2 w3 h3 in
      let logged : w'.sent ≡ w3.sent =
        sent_eq SubmitProbesResponse _ (ok r) w' k4 ∙ sent_eq Unit _ (ok u4) w4 h4 in
      let rows : w3.database
          ≡ rows_for db (hash_user_identifier sub) measurement_id (as_i32 (length request.probes))
              agents w.database =
        ap (λ (v : World S). v.database) all
        ∙ database_eq Unit _ (ok u2) w2 h2
        ∙ track_database db (hash_user_identifier sub) measurement_id
            (as_i32 (length request.probes)) agents w1
        ∙ ap
            (λ (v : World S).
              rows_for db (hash_user_identifier sub) measurement_id (as_i32 (length request.probes))
                agents v.database)
            (sym same) in
      let recorded =
        database_eq SubmitProbesResponse _ (ok r) w' k4 ∙ database_eq Unit _ (ok u4) w4 h4 in
      (
        bs,
        serialized,
        sym (ap (λ (x : SubmitProbesResponse). x.agents) value),
        sym (ap (λ (x : SubmitProbesResponse). x.probes) value),
        sym (ap (λ (x : SubmitProbesResponse). x.id) value),
        logged
            ∙ ap (λ (v : World S). v.sent) all
            ∙ ap (λ l. l ++ messages measurement_id request.metadata bs)
                (tracked ∙ sym (ap (λ (v : World S). v.sent) same)),
        recorded
            ∙ ap
                (λ t.
                  (db.record_probe_usage t sub measurement_id
                    (as_i32 (length request.probes * length agents))).1)
                rows,
      )

  abbrev pub agents_of : SubmitProbesRequest → List AgentMetadata
  agents_of request = assign_agents assigned 0 request.metadata

  abbrev pub from_limit : String → SubmitProbesRequest → H S SubmitProbesResponse
  from_limit sub request = do
    can_submit ←
        or_500 String Bool (λ s. db.can_user_submit_probes s sub (length request.probes % 2 ^ 32))
          (λ _. limit_check_failed)
    _ ← unless (when (not can_submit) too_many_requests limit_exceeded)
    _ ← unless (when (is_empty (agents_of request)) bad_request no_healthy_agents)
    sends sub request (agents_of request)

  -- What the checks from the limit on leave.
  abbrev pub Limited :
      String → SubmitProbesRequest → SubmitProbesResponse → List KafkaMessage → S → World S → Type 0
  Limited sub request r before s w' =
      (s' : S) × (◌≡◌ {A = Result String Bool × S}
        (db.can_user_submit_probes s sub (length request.probes % 2 ^ 32)) (ok true, s'))
      × (is_empty (agents_of request) ≡ false)
      × Published sub request (agents_of request) r before s' w'

  pub from_limit_ok :
      (sub : String) (request : SubmitProbesRequest) (r : SubmitProbesResponse) (w w' : World S)
      → from_limit sub request w ≡ (ok r, w')
      → Limited sub request r w.sent w.database w'
  from_limit_ok sub request r w w' h =
      let (can, w1, h1, k1) = bind_ok _ _ w w' r h in
      let (_, w2, h2, k2) = bind_ok _ _ w1 w' r k1 in
      let (_, w3, h3, k3) = bind_ok _ _ w2 w' r k2 in
      let e1 =
        or_500_ok String Bool
          (λ s. db.can_user_submit_probes s sub (length request.probes % 2 ^ 32))
          (λ _. limit_check_failed) w w1 can h1 in
      let e2 = unless_ok _ w1 w2 tt h2 in
      let e3 = unless_ok _ w2 w3 tt h3 in
      let (bs, a, b, c, d, sent, stored) = dispatch_ok sub request (agents_of request) r w3 w' k3 in
      let quiet : w3 ≡ w1 = sym (e2.1 ∙ e3.1) in
      (
        w1.database,
        allowed _ can w1.database e1.0 (when-none _ _ _ e2.0),
        when-none _ _ _ e3.0,
        (
          bs,
          a,
          b,
          c,
          d,
          sent
              ∙ ap (λ l. l ++ messages measurement_id request.metadata bs)
                  (ap (λ (v : World S). v.sent) quiet ∙ e1.1),
          stored ∙ ap (λ (v : World S). stored_by sub request (agents_of request) v.database) quiet,
        ),
      )
