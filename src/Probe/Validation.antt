-- ===== src/Probe/Validation.antt =====
-- `validate_json_probe` and `validate_probes` of src/probe.rs.
use saimiris_gateway.Prelude.{
  ℕ, ◌+◌, String, ◌||◌, Option, none, some, List, [], ◌∷◌, ltb, ◌==◌, length, is_empty,
  if◌then◌else◌, Result, ok, err, ◌>>=◌,
}
use saimiris_gateway.Json.{Value, as_u64, number, string, array, elements}
use saimiris_gateway.Net.{IpAddr, v4, v6}
use saimiris_gateway.Probe.{lowercase_is, u16_max, u8_max}

pub data ValidationError : Type 0 where
  expected_5_elements : ℕ → ValidationError
  ipv4_not_allowed : String → ValidationError
  invalid_ip : String → ValidationError
  ip_not_string : ValidationError
  invalid_field : String → ℕ → ValidationError
  not_positive_integer : String → ValidationError
  not_number : String → ValidationError
  invalid_ttl : ℕ → ValidationError
  ttl_not_positive_integer : ValidationError
  ttl_not_number : ValidationError
  invalid_protocol : String → ValidationError
  protocol_not_string : ValidationError
  not_array : ValidationError

unfoldable pub validate_port : Value → String → Result ValidationError (Unit {0})
validate_port (number n) field_name = elim (as_u64 n) [
  | some port ↦ if port == 0 || ltb u16_max port then err (invalid_field field_name port) else ok tt
  | none ↦ err (not_positive_integer field_name)
]
validate_port v field_name = err (not_number field_name)

unfoldable pub validate_ttl : Value → Result ValidationError (Unit {0})
validate_ttl (number n) = elim (as_u64 n) [
  | some ttl ↦ if ttl == 0 || ltb u8_max ttl then err (invalid_ttl ttl) else ok tt
  | none ↦ err ttl_not_positive_integer
]
validate_ttl v = err ttl_not_number

unfoldable pub validate_protocol : Value → Result ValidationError (Unit {0})
validate_protocol (string p) =
    if lowercase_is p "udp" || lowercase_is p "icmpv6" then ok tt else err (invalid_protocol p)
validate_protocol v = err protocol_not_string

module _ (ip_from_str : String → Option IpAddr) where
  unfoldable pub validate_ip : Value → Result ValidationError (Unit {0})
  validate_ip (string ip_str) = elim (ip_from_str ip_str) [
    | some (v6 a) ↦ ok tt
    | some (v4 a) ↦ err (ipv4_not_allowed ip_str)
    | none ↦ err (invalid_ip ip_str)
  ]
  validate_ip v = err ip_not_string

  unfoldable pub validate_elements : List Value → Result ValidationError (Unit {0})
  validate_elements (a ∷ b ∷ c ∷ d ∷ e ∷ []) = do
    _ ← validate_ip a
    _ ← validate_port b "Source port"
    _ ← validate_port c "Destination port"
    _ ← validate_ttl d
    validate_protocol e
  validate_elements arr = err (expected_5_elements (length arr))

  unfoldable pub validate_json_probe : Value → Result ValidationError (Unit {0})
  validate_json_probe (array arr) = validate_elements (elements arr)
  validate_json_probe v = err not_array

  -- The loop from index `i`; an error carries the index of its probe.
  unfoldable pub validate_from : ℕ → List Value → Result (ℕ × ValidationError) (Unit {0})
  validate_from i [] = ok tt
  validate_from i (probe ∷ probes) =
      let rest = validate_from (i + 1) probes in
      elim (validate_json_probe probe) [ err e ↦ err (i, e) | ok _ ↦ rest ]

  unfoldable pub validate_probes : List Value → Result (ℕ × ValidationError) (Unit {0})
  unfolding validate_from
  validate_probes probes = if is_empty probes then ok tt else validate_from 0 probes
