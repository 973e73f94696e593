-- ===== src/Examples/Submissions.antt =====
-- Submissions at concrete inputs: one user, one agent and one probe.
use saimiris_gateway.Prelude.{
  arith, str_eq, ℕ, ◌+◌, String, true, Option, none, some, [], ◌∷◌, ◌≡◌, refl, if◌then◌else◌, ◌==◌,
  ok, err,
}
use saimiris_gateway.Prelude.Map.{lookup}
use saimiris_gateway.Database.{MockStorage}
use saimiris_gateway.Database.Usage.{
  get_user_limit, total_loop, get_user_stats, get_user_usage_stats, can_user_submit_probes,
}
use saimiris_gateway.Database.Usage.Quota.{used}
use saimiris_gateway.Database.Mappings.{get_user_id_by_hash}
use saimiris_gateway.UserId.{get_or_create_user_id}
use saimiris_gateway.Submit.Charging.{mock_database, used-submit_probes}
use saimiris_gateway.Http
use saimiris_gateway.Agent.{get}
use saimiris_gateway.Prefix.{validate_user_ipv6, calculate_user_prefix_addr}
use saimiris_gateway.Probe.{
  protocol_to_capnp, parse_port_from_json, parse_ttl_from_json, parse_protocol_capnp_from_json,
  parse_ip_bytes_from_json, deserialize_elements, deserialize_json_to_capnp,
}
use saimiris_gateway.Probe.Validation.{
  validate_port, validate_ttl, validate_protocol, validate_ip, validate_elements,
  validate_json_probe, validate_from, validate_probes,
}
use saimiris_gateway.Probe.Batch.{roll, add_probe, batch_loop, deserialize_probes_batch}
use saimiris_gateway.Submit.{
  SubmitProbesRequest, SubmitProbesResponse, Database, World, check_addresses, assign_agents,
  check_prefix, check_prefixes, track, send_batches, dispatch, submit_probes,
}
use saimiris_gateway.Submit.Checks.{AllOwn, check_prefixes-AllOwn}
use saimiris_gateway.Submit.Effects.{IsAccepted, submit_probes-IsAccepted}
use saimiris_gateway.Examples.Parameters.{
  ip_from_str, write_message, ipnet, storage, store, probe, agent_meta,
}

-- A database that counts its calls.
abbrev counting : Database ℕ
counting = record {
  get_or_create_user_id = λ n sub. (ok 2000000, n + 1);
  can_user_submit_probes = λ n sub k. (ok true, n + 1);
  create_measurement_tracking = λ n u m a k. (ok tt, n + 1);
  record_probe_usage = λ n u m k. (err "down", n + 1);
}

abbrev request : SubmitProbesRequest
request = record { metadata = agent_meta ∷ []; probes = probe ∷ [] }

abbrev world : World ℕ
world = record { database = 0; sent = [] }

abbrev itself : String → String
itself s = s

abbrev reply : SubmitProbesResponse
reply = record { id = 9; probes = 1; agents = agent_meta ∷ [] }

-- The world after the submission.
after : World ℕ
after =
    (submit_probes ip_from_str write_message ipnet itself counting (λ _. none) (λ _. store)
      (λ _. store) 9 "user" request world).1

submitted :
    submit_probes ip_from_str write_message ipnet itself counting
      (λ _. none)
      (λ _. store)
      (λ _. store)
      9
      "user"
      request
      world
    ≡ (ok reply, after)
unfolding after submit_probes dispatch Http.◌>>=◌ check_addresses assign_agents check_prefix
    check_prefixes track send_batches validate_port validate_ttl validate_protocol validate_ip
    validate_elements validate_json_probe validate_from validate_probes roll add_probe batch_loop
    deserialize_probes_batch protocol_to_capnp parse_port_from_json parse_ttl_from_json
    parse_protocol_capnp_from_json parse_ip_bytes_from_json deserialize_elements
    deserialize_json_to_capnp validate_user_ipv6 calculate_user_prefix_addr get lookup
submitted = refl

submit_probes-IsAccepted_example :
    IsAccepted ip_from_str write_message ipnet itself counting
      (λ _. none)
      (λ _. store)
      (λ _. store)
      9
      "user"
      request
      reply
      world
      after
submit_probes-IsAccepted_example =
    submit_probes-IsAccepted ip_from_str write_message ipnet itself counting (λ _. none)
      (λ _. store) (λ _. store) 9 "user" request reply world after submitted

-- The same submission when the queue is full.
refused_world : World ℕ
refused_world =
    (submit_probes ip_from_str write_message ipnet itself counting (λ _. some "full") (λ _. store)
      (λ _. store) 9 "user" request world).1

-- The second of two batches is refused.
abbrev one_slot : ℕ → Option String
one_slot i = if i == 0 then none else some "full"

owned : check_prefixes ipnet (λ _. store) 0 2000000 (agent_meta ∷ []) ≡ none
unfolding check_prefixes check_prefix validate_user_ipv6 calculate_user_prefix_addr get lookup
owned = refl

check_prefixes-AllOwn_example : AllOwn ipnet (λ _. store) 0 2000000 (agent_meta ∷ [])
check_prefixes-AllOwn_example =
    check_prefixes-AllOwn ipnet (λ _. store) 0 2000000 (agent_meta ∷ []) owned

-- The submission on the database in memory.
abbrev mock : Database MockStorage
mock = mock_database itself (λ n. 3000000 + n) 0 25 27 (λ n. n) (λ _. 26)

abbrev known : World MockStorage
known = record {
  database = record storage { user_id_mappings = ("user", 2000000) ∷ [] };
  sent = [];
}

charged : World MockStorage
charged =
    (submit_probes ip_from_str write_message ipnet itself mock (λ _. none) (λ _. store) (λ _. store)
      9 "user" request known).1

submitted_in_memory :
    submit_probes ip_from_str write_message ipnet itself mock
      (λ _. none)
      (λ _. store)
      (λ _. store)
      9
      "user"
      request
      known
    ≡ (ok reply, charged)
unfolding charged submit_probes dispatch Http.◌>>=◌ check_addresses assign_agents check_prefix
    check_prefixes track send_batches validate_port validate_ttl validate_protocol validate_ip
    validate_elements validate_json_probe validate_from validate_probes roll add_probe batch_loop
    deserialize_probes_batch protocol_to_capnp parse_port_from_json parse_ttl_from_json
    parse_protocol_capnp_from_json parse_ip_bytes_from_json deserialize_elements
    deserialize_json_to_capnp validate_user_ipv6 calculate_user_prefix_addr get lookup
    get_or_create_user_id get_user_id_by_hash can_user_submit_probes get_user_usage_stats
    get_user_stats total_loop get_user_limit
submitted_in_memory = refl

used-submit_probes_example :
    used charged.database "user" 20 30
    ≡ used known.database "user" 20 30 + (if str_eq "user" "user" then 1 else 0)
used-submit_probes_example =
    used-submit_probes itself (λ n. 3000000 + n) 0 25 27 (λ n. n) (λ _. 26) ip_from_str
      write_message ipnet (λ _. none) (λ _. store) (λ _. store) 9 "user" request reply known charged
      "user" 20 30 (λ n. (omega arith, omega arith)) (omega arith) submitted_in_memory
