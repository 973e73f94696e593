-- ===== src/Examples/Probes.antt =====
-- Probes and their batches at concrete inputs.
use saimiris_gateway.Prelude.{
  ℕ, ◌+◌, List, [], ◌∷◌, ◌≡◌, refl, ◌≢◌, ◌⊎◌, ◌↔◌, arith, ok, err, ◌>>=◌, length,
}
use saimiris_gateway.Json.{Value}
use saimiris_gateway.Net.{v6}
use saimiris_gateway.Probe.{
  udp, ProbeError, wrong_length, wrong_length_got, Probe, protocol_from_str,
  parse_protocol_from_json, parse_port_from_json, parse_ttl_from_json, parse_ip_from_json,
  from_elements, from_json, to_capnp, deserialize_json_to_capnp,
}
use saimiris_gateway.Probe.Validation.{
  validate_port, validate_ttl, validate_protocol, validate_ip, validate_elements,
  validate_json_probe, validate_from, validate_probes,
}
use saimiris_gateway.Probe.Reading.{deserialize_json_to_capnp-from_json}
use saimiris_gateway.Probe.Acceptance.{IsAccepted, validate_json_probe_iff}
use saimiris_gateway.Probe.Batch.{returned, deserialize_probes_batch}
use saimiris_gateway.Probe.Packing.{Packs}
use saimiris_gateway.Probe.Batching.{serialize_all, deserialize_probes_batch-Packs}
use saimiris_gateway.Probe.Screening.{validate_probes-Packs}
use saimiris_gateway.Examples.Parameters.{
  encodes, documentation_net, ip_from_str, write_message, writes_bytes, probe,
}

abbrev read_probe : Probe
read_probe = record {
  dst_addr = v6 (documentation_net + 1);
  src_port = 24000;
  dst_port = 33434;
  ttl = 30;
  protocol = udp;
}

probe_is_read : from_json ip_from_str probe ≡ ok read_probe
unfolding from_json from_elements parse_ip_from_json parse_port_from_json parse_ttl_from_json
    parse_protocol_from_json protocol_from_str
probe_is_read = refl

deserialize_json_to_capnp-from_json_example :
    (deserialize_json_to_capnp ip_from_str write_message probe
      ≡ (from_json ip_from_str probe >>= to_capnp write_message))
    ⊎ ((arr : List Value) × (deserialize_json_to_capnp ip_from_str write_message probe
          ≡ err (wrong_length_got (length arr)))
        × (from_json ip_from_str probe ≡ err wrong_length)
        × (length arr ≢ 5))
deserialize_json_to_capnp-from_json_example =
    deserialize_json_to_capnp-from_json ip_from_str write_message probe

validate_json_probe_iff_example :
    (validate_json_probe ip_from_str probe ≡ ok tt)
    ↔ ((p : Probe) × (from_json ip_from_str probe ≡ ok p) × IsAccepted ip_from_str p)
validate_json_probe_iff_example = validate_json_probe_iff ip_from_str probe

abbrev probes : List Value
probes = probe ∷ probe ∷ probe ∷ probe ∷ []

deserialize_probes_batch-Packs_example :
    ((e : ProbeError) × (serialize_all ip_from_str write_message probes ≡ err e)
      × (deserialize_probes_batch ip_from_str write_message probes 64 ≡ returned (err e)))
    ⊎ ((ms : List (List ℕ)) × (bs : List (List ℕ)) × (serialize_all ip_from_str write_message probes
          ≡ ok ms)
        × (deserialize_probes_batch ip_from_str write_message probes 64 ≡ returned (ok bs))
        × Packs 64 ms bs)
deserialize_probes_batch-Packs_example =
    deserialize_probes_batch-Packs ip_from_str write_message writes_bytes probes 64 (omega arith)

probes_are_valid : validate_probes ip_from_str probes ≡ ok tt
unfolding validate_port validate_ttl validate_protocol validate_ip validate_elements
    validate_json_probe validate_from validate_probes
probes_are_valid = refl

validate_probes-Packs_example :
    (ms bs : List (List ℕ)) × (serialize_all ip_from_str write_message probes ≡ ok ms)
    × (length ms ≡ 4)
    × (deserialize_probes_batch ip_from_str write_message probes 64 ≡ returned (ok bs))
    × Packs 64 ms bs
validate_probes-Packs_example =
    validate_probes-Packs ip_from_str write_message encodes writes_bytes probes 64 (omega arith)
      probes_are_valid
