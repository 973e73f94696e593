-- ===== src/Probe/Reading.antt =====
-- The direct way from JSON to a Cap'n Proto message against the way through a `Probe`.
use saimiris_gateway.Prelude.{
  ℕ, String, true, false, Option, List, [], ◌∷◌, ◌≡◌, refl, ◌⊎◌, inl, inr, arith, str_eq, eq_iff,
  Result, ok, err, ◌>>=◌, >>=-eq-ok, Bool-cases, codes, to_lowercase, words_apart, length, ◌≢◌,
}
use saimiris_gateway.Json.{Value, null, string, array, elements}
use saimiris_gateway.Net.{IpAddr}
use saimiris_gateway.Probe.Wire.{Message}
use saimiris_gateway.Probe.Wire
use saimiris_gateway.Probe.{
  Protocol, icmp, udp, tcp, icmpv6, ProbeError, wrong_length, wrong_length_got, ip_bytes,
  protocol_from_str, protocol_to_capnp, protocol_fmt, parse_port_from_json, parse_ttl_from_json,
  parse_protocol_from_json, parse_protocol_capnp_from_json, parse_ip_from_json,
  parse_ip_bytes_from_json, from_elements, from_json, message_of, to_capnp, deserialize_elements,
  deserialize_json_to_capnp,
}

-- A protocol is read back from the text that `Display` writes.
pub protocol_from_str-protocol_fmt : (p : Protocol) → protocol_from_str (protocol_fmt p) ≡ ok p
unfolding protocol_from_str protocol_fmt
protocol_from_str-protocol_fmt icmp = refl
protocol_from_str-protocol_fmt udp = refl
protocol_from_str-protocol_fmt tcp = refl
protocol_from_str-protocol_fmt icmpv6 = refl

abbrev via : Result ProbeError Protocol → Result ProbeError Wire.Protocol
via r = r >>= λ p. ok (protocol_to_capnp p)

-- The literal that the fast path tests first is read the same without it.
abbrev Fast : String → Type 0
Fast s = parse_protocol_capnp_from_json (string s) ≡ via (protocol_from_str s)

slow_path :
    (s : String)
    → str_eq s "tcp" ≡ false
    → str_eq s "udp" ≡ false
    → str_eq s "icmp" ≡ false
    → str_eq s "icmpv6" ≡ false
    → Fast s
unfolding parse_protocol_capnp_from_json protocol_from_str protocol_to_capnp
slow_path s t u i v = ground (
  arith,
  words_apart (to_lowercase s) (codes "icmp") (codes "tcp") refl,
  words_apart (to_lowercase s) (codes "icmp") (codes "udp") refl,
  words_apart (to_lowercase s) (codes "udp") (codes "tcp") refl,
)

Fast-path : (s word : String) → str_eq s word ≡ true → Fast word → Fast s
Fast-path s word h at_word = rw ((eq_iff s word).0 h) at_word

protocol-Fast : (s : String) → Fast s
protocol-Fast s = elim (Bool-cases (str_eq s "tcp")) [
  | inl t ↦
      Fast-path s "tcp" t
        (unfold parse_protocol_capnp_from_json protocol_from_str protocol_to_capnp in refl)
  | inr t ↦ elim (Bool-cases (str_eq s "udp")) [
    | inl u ↦
        Fast-path s "udp" u
          (unfold parse_protocol_capnp_from_json protocol_from_str protocol_to_capnp in refl)
    | inr u ↦ elim (Bool-cases (str_eq s "icmp")) [
      | inl i ↦
          Fast-path s "icmp" i
            (unfold parse_protocol_capnp_from_json protocol_from_str protocol_to_capnp in refl)
      | inr i ↦ elim (Bool-cases (str_eq s "icmpv6")) [
        | inl v ↦
            Fast-path s "icmpv6" v
              (unfold parse_protocol_capnp_from_json protocol_from_str protocol_to_capnp in refl)
        | inr v ↦ slow_path s t u i v
      ]
    ]
  ]
]

-- The two readers of a protocol accept the same values and mean the same protocol: the fast path
-- for lower-case words changes nothing.
pub parse_protocol_capnp_lem :
    (v : Value)
    → parse_protocol_capnp_from_json v
      ≡ (parse_protocol_from_json v >>= λ p. ok (protocol_to_capnp p))
unfolding parse_protocol_from_json
parse_protocol_capnp_lem (string s) = protocol-Fast s
parse_protocol_capnp_lem null = unfold parse_protocol_capnp_from_json in refl
parse_protocol_capnp_lem _ = unfold parse_protocol_capnp_from_json in refl

module _ (ip_from_str : String → Option IpAddr)
    (write_message : Message → Result ProbeError (List ℕ)) where
  parse_ip_bytes_lem :
      (v : Value)
      → parse_ip_bytes_from_json ip_from_str v
        ≡ (parse_ip_from_json ip_from_str v >>= λ ip. ok (ip_bytes ip))
  unfolding parse_ip_bytes_from_json parse_ip_from_json
  parse_ip_bytes_lem (string s) = ground arith
  parse_ip_bytes_lem null = refl
  parse_ip_bytes_lem _ = refl

  -- The result of the direct reader is that of the reader through a `Probe`, or both refuse the
  -- length.
  abbrev Agrees : List Value → Type 0
  Agrees arr =
      (deserialize_elements ip_from_str write_message arr
        ≡ (from_elements ip_from_str arr >>= to_capnp write_message))
      ⊎ ((arr' : List Value) × (deserialize_elements ip_from_str write_message arr
            ≡ err (wrong_length_got (length arr')))
          × (from_elements ip_from_str arr ≡ err wrong_length)
          × (length arr' ≢ 5))

  five_agree :
      (a b c d e : Value)
      → deserialize_elements ip_from_str write_message (a ∷ b ∷ c ∷ d ∷ e ∷ [])
        ≡ (from_elements ip_from_str (a ∷ b ∷ c ∷ d ∷ e ∷ []) >>= to_capnp write_message)
  unfolding deserialize_elements from_elements to_capnp message_of
  five_agree a b c d e = rw (parse_ip_bytes_lem a, parse_protocol_capnp_lem e) (ground arith)

  elements_agree : (arr : List Value) → Agrees arr
  elements_agree (a ∷ b ∷ c ∷ d ∷ e ∷ []) = inl (five_agree a b c d e)
  elements_agree [] = unfold deserialize_elements from_elements in inr ([], refl, refl, omega arith)
  elements_agree arr =
      unfold deserialize_elements from_elements in inr (arr, refl, refl, omega arith)

  -- Reading JSON straight into a message gives the result, error or bytes, of reading a `Probe` and
  -- encoding it; only on an array that has not five elements do the error texts differ.
  pub deserialize_json_to_capnp-from_json :
      (v : Value)
      → (deserialize_json_to_capnp ip_from_str write_message v
          ≡ (from_json ip_from_str v >>= to_capnp write_message))
        ⊎ ((arr : List Value) × (deserialize_json_to_capnp ip_from_str write_message v
              ≡ err (wrong_length_got (length arr)))
            × (from_json ip_from_str v ≡ err wrong_length)
            × (length arr ≢ 5))
  unfolding deserialize_json_to_capnp from_json
  deserialize_json_to_capnp-from_json (array arr) = elements_agree (elements arr)
  deserialize_json_to_capnp-from_json null = inl refl
  deserialize_json_to_capnp-from_json _ = inl refl

  elements_written :
      (arr : List Value) (bytes : List ℕ)
      → deserialize_elements ip_from_str write_message arr ≡ ok bytes
      → (m : Message) × (write_message m ≡ ok bytes)
  unfolding deserialize_elements
  elements_written (a ∷ b ∷ c ∷ d ∷ e ∷ []) bytes h =
      let (_, _, h1) = >>=-eq-ok (parse_ip_bytes_from_json ip_from_str a) _ h in
      let (_, _, h2) = >>=-eq-ok (parse_port_from_json b "Source port") _ h1 in
      let (_, _, h3) = >>=-eq-ok (parse_port_from_json c "Destination port") _ h2 in
      let (_, _, h4) = >>=-eq-ok (parse_ttl_from_json d) _ h3 in
      let (_, _, h5) = >>=-eq-ok (parse_protocol_capnp_from_json e) _ h4 in (_, h5)
  elements_written [] bytes h = cc
  elements_written _ bytes h = cc

  -- Bytes that the direct reader returns are the encoder's for some message.
  pub deserialize_json_to_capnp_written :
      (v : Value) (bytes : List ℕ)
      → deserialize_json_to_capnp ip_from_str write_message v ≡ ok bytes
      → (m : Message) × (write_message m ≡ ok bytes)
  unfolding deserialize_json_to_capnp
  deserialize_json_to_capnp_written (array arr) bytes h = elements_written (elements arr) bytes h
  deserialize_json_to_capnp_written null bytes h = cc
  deserialize_json_to_capnp_written _ bytes h = cc
