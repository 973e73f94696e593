-- ===== src/Probe.antt =====
-- src/probe.rs: a probe, the two ways to read one from JSON, and its Cap'n Proto message. The text
-- syntax of addresses (`IpAddr::from_str`) and the Cap'n Proto encoder (`serialize::write_message`)
-- are parameters.
pub mod Wire
pub mod Validation
pub mod Batch
pub mod Reading
pub mod Acceptance
pub mod Packing
pub mod Batching
pub mod Screening
use Prim.Native.String.{len}
use saimiris_gateway.Prelude.{
  ℕ, ◌-◌, ◌^◌, String, Bool, ◌&&◌, Option, none, some, List, [], ◌∷◌, str_eq, ltb, leb, length,
  if◌then◌else◌, Result, ok, err, ◌>>=◌, codes, codes_eq, to_lowercase, contains_char,
}
use saimiris_gateway.Json.{Value, Number, as_u64, number, string, array, elements}
use saimiris_gateway.Net.{IpAddr, v4, v6}
use saimiris_gateway.Net.Bytes.{v6_octets, to_ipv6_mapped}
use Wire.{Message}
use Wire

pub data Protocol : Type 0 where
  icmp udp tcp icmpv6 : Protocol

-- The messages of the `anyhow!` calls, with what they quote.
pub data ProbeError : Type 0 where
  wrong_length : ProbeError
  wrong_length_got : ℕ → ProbeError
  expected_array : ProbeError
  invalid_ip : String → ProbeError
  ip_not_string : ProbeError
  out_of_range : String → ℕ → ProbeError
  invalid_format : String → ProbeError
  not_number : String → ProbeError
  ttl_out_of_range : ℕ → ProbeError
  invalid_ttl_format : ProbeError
  ttl_not_number : ProbeError
  invalid_protocol : String → ProbeError
  protocol_not_string : ProbeError
  encoder_failed : String → ProbeError

-- The test on `s.to_lowercase().as_str()` against a literal.
abbrev pub lowercase_is : String → String → Bool
lowercase_is s word = codes_eq (to_lowercase s) (codes word)

unfoldable pub protocol_from_str : String → Result ProbeError Protocol
protocol_from_str s =
    if lowercase_is s "icmp"
    then ok icmp
    else if lowercase_is s "udp"
    then ok udp
    else if lowercase_is s "tcp"
    then ok tcp
    else if lowercase_is s "icmpv6"
    then ok icmpv6
    else err (invalid_protocol s)

unfoldable pub protocol_fmt : Protocol → String
protocol_fmt icmp = "icmp"
protocol_fmt udp = "udp"
protocol_fmt tcp = "tcp"
protocol_fmt icmpv6 = "icmpv6"

unfoldable pub protocol_to_capnp : Protocol → Wire.Protocol
protocol_to_capnp tcp = Wire.tcp
protocol_to_capnp udp = Wire.udp
protocol_to_capnp icmp = Wire.icmp
protocol_to_capnp icmpv6 = Wire.icmpv6

pub record Probe : Type 0 where
  pub dst_addr : IpAddr
  pub src_port : ℕ
  pub dst_port : ℕ
  pub ttl : ℕ
  pub protocol : Protocol

-- `u16::MAX as u64`, `u8::MAX as u64`
abbrev pub u16_max : ℕ
u16_max = 65535

abbrev pub u8_max : ℕ
u8_max = 255

unfoldable pub parse_port_from_json : Value → String → Result ProbeError ℕ
parse_port_from_json (number n) field_name = elim (as_u64 n) [
  | some port ↦
      if leb port u16_max && ltb 0 port then ok port else err (out_of_range field_name port)
  | none ↦ err (invalid_format field_name)
]
parse_port_from_json v field_name = err (not_number field_name)

unfoldable pub parse_ttl_from_json : Value → Result ProbeError ℕ
parse_ttl_from_json (number n) = elim (as_u64 n) [
  | some t ↦ if leb t u8_max && ltb 0 t then ok t else err (ttl_out_of_range t)
  | none ↦ err invalid_ttl_format
]
parse_ttl_from_json v = err ttl_not_number

unfoldable pub parse_protocol_from_json : Value → Result ProbeError Protocol
parse_protocol_from_json (string p) = protocol_from_str p
parse_protocol_from_json v = err protocol_not_string

unfoldable pub parse_protocol_capnp_from_json : Value → Result ProbeError Wire.Protocol
parse_protocol_capnp_from_json (string p) =
    if str_eq p "tcp"
    then ok Wire.tcp
    else if str_eq p "udp"
    then ok Wire.udp
    else if str_eq p "icmp"
    then ok Wire.icmp
    else if str_eq p "icmpv6"
    then ok Wire.icmpv6
    else if lowercase_is p "tcp"
    then ok Wire.tcp
    else if lowercase_is p "udp"
    then ok Wire.udp
    else if lowercase_is p "icmp"
    then ok Wire.icmp
    else if lowercase_is p "icmpv6"
    then ok Wire.icmpv6
    else err (invalid_protocol p)
parse_protocol_capnp_from_json v = err protocol_not_string

module _ (ip_from_str : String → Option IpAddr) where
  unfoldable pub parse_ip_from_json : Value → Result ProbeError IpAddr
  parse_ip_from_json (string ip_str) = elim (ip_from_str ip_str) [
    | some ip ↦ ok ip
    | none ↦ err (invalid_ip ip_str)
  ]
  parse_ip_from_json v = err ip_not_string

  unfoldable pub parse_ip_bytes_from_json : Value → Result ProbeError (List ℕ)
  parse_ip_bytes_from_json (string ip_str) =
      if leb (len ip_str) 15 && contains_char b'.' ip_str
      then elim (ip_from_str ip_str) [
        | some (v4 a) ↦ ok (v6_octets (to_ipv6_mapped a))
        | some (v6 a) ↦ ok (v6_octets a)
        | none ↦ err (invalid_ip ip_str)
      ]
      else elim (ip_from_str ip_str) [
        | some (v4 a) ↦ ok (v6_octets (to_ipv6_mapped a))
        | some (v6 a) ↦ ok (v6_octets a)
        | none ↦ err (invalid_ip ip_str)
      ]
  parse_ip_bytes_from_json v = err ip_not_string

  -- The five elements of the array; any other length is refused.
  unfoldable pub from_elements : List Value → Result ProbeError Probe
  from_elements (a ∷ b ∷ c ∷ d ∷ e ∷ []) = do
    dst_addr ← parse_ip_from_json a
    src_port ← parse_port_from_json b "Source port"
    dst_port ← parse_port_from_json c "Destination port"
    ttl ← parse_ttl_from_json d
    protocol ← parse_protocol_from_json e
    ok (record {
      dst_addr = dst_addr;
      src_port = src_port;
      dst_port = dst_port;
      ttl = ttl;
      protocol = protocol;
    })
  from_elements arr = err wrong_length

  unfoldable pub from_json : Value → Result ProbeError Probe
  from_json (array arr) = from_elements (elements arr)
  from_json v = err expected_array

abbrev pub ip_bytes : IpAddr → List ℕ
ip_bytes (v4 a) = v6_octets (to_ipv6_mapped a)
ip_bytes (v6 a) = v6_octets a

unfoldable pub message_of : Probe → Message
unfolding protocol_to_capnp
message_of p = record {
  dst_addr = ip_bytes p.dst_addr;
  src_port = p.src_port;
  dst_port = p.dst_port;
  ttl = p.ttl;
  protocol = protocol_to_capnp p.protocol;
}

module _ (write_message : Message → Result ProbeError (List ℕ)) where
  unfoldable pub to_capnp : Probe → Result ProbeError (List ℕ)
  to_capnp p = write_message (message_of p)

module _ (ip_from_str : String → Option IpAddr)
    (write_message : Message → Result ProbeError (List ℕ)) where
  unfoldable pub deserialize_elements : List Value → Result ProbeError (List ℕ)
  deserialize_elements (a ∷ b ∷ c ∷ d ∷ e ∷ []) = do
    ip_addr ← parse_ip_bytes_from_json ip_from_str a
    src_port ← parse_port_from_json b "Source port"
    dst_port ← parse_port_from_json c "Destination port"
    ttl ← parse_ttl_from_json d
    protocol ← parse_protocol_capnp_from_json e
    write_message (record {
      dst_addr = ip_addr;
      src_port = src_port;
      dst_port = dst_port;
      ttl = ttl;
      protocol = protocol;
    })
  deserialize_elements arr = err (wrong_length_got (length arr))

  unfoldable pub deserialize_json_to_capnp : Value → Result ProbeError (List ℕ)
  deserialize_json_to_capnp (array arr) = deserialize_elements (elements arr)
  deserialize_json_to_capnp v = err expected_array
