-- ===== src/Submit/Effects.antt =====
-- What a whole call of `submit_probes` does to the database and the Kafka topic.
use saimiris_gateway.Prelude.{
  ℕ, ◌*◌, ◌%◌, ◌^◌, String, true, false, Option, none, List, ◌++◌, ◌≡◌, sym, ap, subst, ◌∙◌, length,
  is_empty, Result, ok,
}
use saimiris_gateway.Net.{IpAddr}
use saimiris_gateway.Http.{bind_ok, ◌>>=◌}
use saimiris_gateway.Agent.{AgentStore}
use saimiris_gateway.Prefix.Ipnet.{Ipnet}
use saimiris_gateway.Probe.Wire.{Message}
use saimiris_gateway.Probe.{ProbeError}
use saimiris_gateway.Probe.Validation.{validate_probes}
use saimiris_gateway.Probe.Batch.{returned, deserialize_probes_batch}
use saimiris_gateway.UserId.{UserIdError}
use saimiris_gateway.Submit.{
  KafkaMessage, SubmitProbesRequest, SubmitProbesResponse, user_id_failed, Database, World, H,
  check_addresses, assign_agents, check_prefixes, end_with, or_500, max_batch_bytes, submit_probes,
}
use saimiris_gateway.Submit.Messages.{messages}
use saimiris_gateway.Submit.Publishing.{stored_by, from_limit, Limited, from_limit_ok}
use saimiris_gateway.Submit.Steps.{unless_ok, end_with_ok, or_500_ok, when-none, validation-none}

module _ (ip_from_str : String → Option IpAddr)
    (write_message : Message → Result ProbeError (List ℕ)) (ipnet : Ipnet)
    (hash_user_identifier : String → String) {S : Type 0} (db : Database S)
    (deliver : ℕ → Option String) (checked assigned : ℕ → AgentStore) (measurement_id : ℕ) where
  abbrev rest : String → SubmitProbesRequest → H S SubmitProbesResponse
  rest =
      from_limit ip_from_str write_message ipnet hash_user_identifier db deliver checked assigned
        measurement_id

  abbrev IsWithin :
      String → SubmitProbesRequest → SubmitProbesResponse → List KafkaMessage → S → World S → Type 0
  IsWithin =
      Limited ip_from_str write_message ipnet hash_user_identifier db deliver checked assigned
        measurement_id

  -- What holds of a request that is answered with a measurement, and of that answer: the batches
  -- are all sent, and nothing else is.
  pub record IsAccepted (sub : String) (request : SubmitProbesRequest) (r : SubmitProbesResponse)
      (w w' : World S) : Type 0 where
    pub nonempty : is_empty request.probes ≡ false
    pub valid : validate_probes ip_from_str request.probes ≡ ok tt
    pub addressed : check_addresses request.metadata ≡ none
    pub user_id : ℕ
    pub after_id : S
    pub identified : db.get_or_create_user_id w.database sub ≡ (ok user_id, after_id)
    pub owned : check_prefixes ipnet checked 0 user_id request.metadata ≡ none
    pub after_limit : S
    pub within_limit :
        db.can_user_submit_probes after_id sub (length request.probes % 2 ^ 32)
        ≡ (ok true, after_limit)
    pub batches : List (List ℕ)
    pub serialized :
        deserialize_probes_batch ip_from_str write_message request.probes max_batch_bytes
        ≡ returned (ok batches)
    pub some_agent : is_empty r.agents ≡ false
    pub agents : r.agents ≡ assign_agents assigned 0 request.metadata
    pub probes : r.probes ≡ length request.probes * length r.agents
    pub id : r.id ≡ measurement_id
    pub sent : w'.sent ≡ w.sent ++ messages measurement_id request.metadata batches
    pub stored :
        w'.database
        ≡ stored_by ip_from_str write_message ipnet hash_user_identifier db deliver checked assigned
            measurement_id sub request
            (assign_agents assigned 0 request.metadata)
            after_limit

  abbrev from_user : String → SubmitProbesRequest → H S SubmitProbesResponse
  from_user sub request = do
    user_id ← or_500 UserIdError ℕ (λ s. db.get_or_create_user_id s sub) user_id_failed
    _ ← end_with (check_prefixes ipnet checked 0 user_id request.metadata)
    rest sub request

  -- What the checks from the user's id on leave.
  abbrev Identified :
      String → SubmitProbesRequest → SubmitProbesResponse → World S → World S → Type 0
  Identified sub request r w w' =
      (user_id : ℕ) × (s : S) × (◌≡◌ {A = Result UserIdError ℕ × S}
        (db.get_or_create_user_id w.database sub) (ok user_id, s))
      × (check_prefixes ipnet checked 0 user_id request.metadata ≡ none)
      × IsWithin sub request r w.sent s w'

  IsWithin-subst :
      (sub : String) (request : SubmitProbesRequest) (r : SubmitProbesResponse)
      (l m : List KafkaMessage) (s t : S) (w' : World S)
      → l ≡ m
      → s ≡ t
      → IsWithin sub request r l s w'
      → IsWithin sub request r m t w'
  IsWithin-subst sub request r l m s t w' e k h =
      subst (λ v. IsWithin sub request r m v w') k (subst (λ v. IsWithin sub request r v s w') e h)

  from_user_ok :
      (sub : String) (request : SubmitProbesRequest) (r : SubmitProbesResponse) (w w' : World S)
      → from_user sub request w ≡ (ok r, w')
      → Identified sub request r w w'
  from_user_ok sub request r w w' h =
      let (id, w1, h1, k1) = bind_ok _ _ w w' r h in
      let (_, w2, h2, k2) = bind_ok _ _ w1 w' r k1 in
      let e1 =
        or_500_ok UserIdError ℕ (λ s. db.get_or_create_user_id s sub) user_id_failed w w1 id h1 in
      let e2 = end_with_ok _ w1 w2 tt h2 in
      let limited =
        from_limit_ok ip_from_str write_message ipnet hash_user_identifier db deliver checked
          assigned measurement_id sub request r w2 w' k2 in
      (
        id,
        w1.database,
        e1.0,
        e2.0,
        IsWithin-subst sub request r w2.sent w.sent w2.database w1.database w'
            (ap (λ (v : World S). v.sent) (sym e2.1) ∙ e1.1)
            (ap (λ (v : World S). v.database) (sym e2.1)) limited,
      )

  accepted :
      (sub : String) (request : SubmitProbesRequest) (r : SubmitProbesResponse) (w w' : World S)
      → is_empty request.probes ≡ false
      → validate_probes ip_from_str request.probes ≡ ok tt
      → check_addresses request.metadata ≡ none
      → Identified sub request r w w'
      → IsAccepted sub request r w w'
  accepted sub request r w w' e1 e2 e3
        (id, s, found, owned, (s', limit, agents, (bs, a, b, c, d, sent, stored))) =
      record {
        nonempty = e1;
        valid = e2;
        addressed = e3;
        user_id = id;
        after_id = s;
        identified = found;
        owned = owned;
        after_limit = s';
        within_limit = limit;
        batches = bs;
        serialized = a;
        some_agent = ap is_empty b ∙ agents;
        agents = b;
        probes = c ∙ ap (λ l. length request.probes * length l) (sym b);
        id = d;
        sent = sent;
        stored = stored;
      }

  -- A submission is answered with a measurement only if the probes are there and pass validation,
  -- every agent of the request has an address, the database gives the user an id, the prefix check
  -- lets the request through, the database says that the limit allows the probes, and some agent is
  -- assigned. The answer names the agents assigned, and as probes those of the request once for each
  -- of them; the messages sent are exactly those of the batches; and the database is left as the
  -- calls that create a tracking row for each assigned agent in turn, and then the one that records
  -- the submission, leave it, whether they succeed or not.
  pub submit_probes-IsAccepted :
      (sub : String) (request : SubmitProbesRequest) (r : SubmitProbesResponse) (w w' : World S)
      → submit_probes ip_from_str write_message ipnet hash_user_identifier db deliver checked
          assigned measurement_id sub request w
        ≡ (ok r, w')
      → IsAccepted sub request r w w'
  unfolding submit_probes
  submit_probes-IsAccepted sub request r w w' h =
      let (_, w1, h1, k1) = bind_ok _ _ w w' r h in
      let (_, w2, h2, k2) = bind_ok _ _ w1 w' r k1 in
      let (_, w3, h3, k3) = bind_ok _ _ w2 w' r k2 in
      let e1 = unless_ok _ w w1 tt h1 in
      let e2 = unless_ok _ w1 w2 tt h2 in
      let e3 = unless_ok _ w2 w3 tt h3 in
      accepted sub request r w w' (when-none _ _ _ e1.0) (validation-none _ e2.0) e3.0 (
        subst (λ v. Identified sub request r v w') (sym (e1.1 ∙ e2.1 ∙ e3.1))
          (from_user_ok sub request r w3 w' k3))
