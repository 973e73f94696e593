-- ===== src/Probe/Acceptance.antt =====
-- What the validator accepts, in terms of what the reader makes of it.
use saimiris_gateway.Prelude.{
  ℕ, ◌≤◌, ◌<◌, String, Option, List, [], ◌∷◌, ◌≡◌, refl, ◌⊎◌, inl, inr, ◌↔◌, arith, ok, >>=-eq-ok,
  Bool-cases, Option-cases, codes, to_lowercase, words_apart, subst, ◌∙◌, ap,
}
use saimiris_gateway.Json.{Value, pos_int, neg_int, float, null, number, string, array, elements}
use saimiris_gateway.Net.{IpAddr, v4, v6}
use saimiris_gateway.Probe.{
  Protocol, udp, icmpv6, Probe, lowercase_is, u16_max, u8_max, protocol_from_str,
  parse_port_from_json, parse_ttl_from_json, parse_protocol_from_json, parse_ip_from_json,
  from_elements, from_json,
}
use saimiris_gateway.Probe.Validation.{
  validate_port, validate_ttl, validate_protocol, validate_ip, validate_elements,
  validate_json_probe,
}

abbrev pub IsPort : ℕ → Type 0
IsPort n = (0 < n) × (n ≤ u16_max)

IsPort-bounds : (v : Value) (name : String) (n : ℕ) → parse_port_from_json v name ≡ ok n → IsPort n
unfolding parse_port_from_json
IsPort-bounds (number (pos_int k)) name n h = ground arith
IsPort-bounds _ name n h = ground arith

ttl_bounds : (v : Value) (n : ℕ) → parse_ttl_from_json v ≡ ok n → (0 < n) × (n ≤ u8_max)
unfolding parse_ttl_from_json
ttl_bounds (number (pos_int k)) n h = ground arith
ttl_bounds _ n h = ground arith

port_accept :
    (v : Value) (name : String)
    → validate_port v name ≡ ok tt
    → (n : ℕ) × (parse_port_from_json v name ≡ ok n)
unfolding validate_port parse_port_from_json
port_accept (number (pos_int k)) name h = (k, ground arith)
port_accept (number (neg_int k)) name h = cc
port_accept (number (float k)) name h = cc
port_accept null name h = cc
port_accept _ name h = cc

port_reject :
    (v : Value) (name : String) (n : ℕ)
    → parse_port_from_json v name ≡ ok n
    → validate_port v name ≡ ok tt
unfolding validate_port parse_port_from_json
port_reject (number (pos_int k)) name n h = ground arith
port_reject _ name n h = ground arith

ttl_accept : (v : Value) → validate_ttl v ≡ ok tt → (n : ℕ) × (parse_ttl_from_json v ≡ ok n)
unfolding validate_ttl parse_ttl_from_json
ttl_accept (number (pos_int k)) h = (k, ground arith)
ttl_accept (number (neg_int k)) h = cc
ttl_accept (number (float k)) h = cc
ttl_accept null h = cc
ttl_accept _ h = cc

ttl_reject : (v : Value) (n : ℕ) → parse_ttl_from_json v ≡ ok n → validate_ttl v ≡ ok tt
unfolding validate_ttl parse_ttl_from_json
ttl_reject (number (pos_int k)) n h = ground arith
ttl_reject _ n h = ground arith

-- The protocols that the validator lets through.
abbrev pub IsAllowed : Protocol → Type 0
IsAllowed p = (p ≡ udp) ⊎ (p ≡ icmpv6)

protocol_accept :
    (v : Value)
    → validate_protocol v ≡ ok tt
    → (p : Protocol) × (parse_protocol_from_json v ≡ ok p) × IsAllowed p
unfolding validate_protocol parse_protocol_from_json protocol_from_str
protocol_accept (string s) h = elim (Bool-cases (lowercase_is s "udp")) [
  | inl u ↦ (
    udp,
    ground (arith, words_apart (to_lowercase s) (codes "udp") (codes "icmp") refl),
    inl refl,
  )
  | inr u ↦ (
    icmpv6,
    ground (
      arith,
      words_apart (to_lowercase s) (codes "icmpv6") (codes "icmp") refl,
      words_apart (to_lowercase s) (codes "icmpv6") (codes "tcp") refl,
    ),
    inr refl,
  )
]
protocol_accept null h = cc
protocol_accept _ h = cc

protocol_reject :
    (v : Value) (p : Protocol)
    → parse_protocol_from_json v ≡ ok p
    → IsAllowed p
    → validate_protocol v ≡ ok tt
unfolding validate_protocol parse_protocol_from_json protocol_from_str
protocol_reject (string s) p h a = ground arith
protocol_reject _ p h a = ground arith

module _ (ip_from_str : String → Option IpAddr) where
  ip_accept :
      (v : Value)
      → validate_ip ip_from_str v ≡ ok tt
      → (a : ℕ) × (parse_ip_from_json ip_from_str v ≡ ok (v6 a))
  unfolding validate_ip parse_ip_from_json
  ip_accept (string s) h = elim (Option-cases (ip_from_str s)) [
    | inl e ↦ absurd (ground arith)
    | inr (v4 a, e) ↦ absurd (ground arith)
    | inr (v6 a, e) ↦ (a, ground arith)
  ]
  ip_accept null h = cc
  ip_accept _ h = cc

  ip_reject :
      (v : Value) (a : ℕ)
      → parse_ip_from_json ip_from_str v ≡ ok (v6 a)
      → validate_ip ip_from_str v ≡ ok tt
  unfolding validate_ip parse_ip_from_json
  ip_reject (string s) a h = ground arith
  ip_reject _ a h = ground arith

  -- A probe with an IPv6 destination and one of the allowed protocols.
  pub record IsAccepted (p : Probe) : Type 0 where
    pub addr : ℕ
    pub is_v6 : p.dst_addr ≡ v6 addr
    pub allowed : IsAllowed p.protocol

  five_accept :
      (a b c d e : Value)
      → validate_elements ip_from_str (a ∷ b ∷ c ∷ d ∷ e ∷ []) ≡ ok tt
      → (p : Probe) × (from_elements ip_from_str (a ∷ b ∷ c ∷ d ∷ e ∷ []) ≡ ok p) × IsAccepted p
  unfolding validate_elements from_elements
  five_accept a b c d e h =
      let (_, ha, h1) = >>=-eq-ok (validate_ip ip_from_str a) _ h in
      let (_, hb, h2) = >>=-eq-ok (validate_port b "Source port") _ h1 in
      let (_, hc, h3) = >>=-eq-ok (validate_port c "Destination port") _ h2 in
      let (_, hd, he) = >>=-eq-ok (validate_ttl d) _ h3 in
      let (ip, pa) = ip_accept a ha in
      let (sp, pb) = port_accept b "Source port" hb in
      let (dp, pc) = port_accept c "Destination port" hc in
      let (t, pd) = ttl_accept d hd in
      let (p, pe, allow) = protocol_accept e he in
      (
        record { dst_addr = v6 ip; src_port = sp; dst_port = dp; ttl = t; protocol = p },
        rw (pa, pb, pc, pd, pe) refl,
        record { addr = ip; is_v6 = refl; allowed = allow },
      )

  five_reject :
      (a b c d e : Value) (p : Probe)
      → from_elements ip_from_str (a ∷ b ∷ c ∷ d ∷ e ∷ []) ≡ ok p
      → IsAccepted p
      → validate_elements ip_from_str (a ∷ b ∷ c ∷ d ∷ e ∷ []) ≡ ok tt
  unfolding validate_elements from_elements
  five_reject a b c d e p h w =
      let (ip, ha, h1) = >>=-eq-ok (parse_ip_from_json ip_from_str a) _ h in
      let (sp, hb, h2) = >>=-eq-ok (parse_port_from_json b "Source port") _ h1 in
      let (dp, hc, h3) = >>=-eq-ok (parse_port_from_json c "Destination port") _ h2 in
      let (t, hd, h4) = >>=-eq-ok (parse_ttl_from_json d) _ h3 in
      let (pr, he, h5) = >>=-eq-ok (parse_protocol_from_json e) _ h4 in
      let same_ip : ip ≡ p.dst_addr = cc in
      let same_protocol : pr ≡ p.protocol = cc in
      rw
        (
          ip_reject a w.addr (ha ∙ ap ok (same_ip ∙ w.is_v6)),
          port_reject b "Source port" sp hb,
          port_reject c "Destination port" dp hc,
          ttl_reject d t hd,
        )
        (protocol_reject e p.protocol (he ∙ ap ok same_protocol) w.allowed)

  elements_iff :
      (arr : List Value)
      → (validate_elements ip_from_str arr ≡ ok tt)
        ↔ ((p : Probe) × (from_elements ip_from_str arr ≡ ok p) × IsAccepted p)
  elements_iff (a ∷ b ∷ c ∷ d ∷ e ∷ []) =
      (five_accept a b c d e, λ h. five_reject a b c d e h.0 h.1 h.2)
  elements_iff [] = unfold validate_elements from_elements in (λ h. cc, λ h. cc (h.1))
  elements_iff _ = unfold validate_elements from_elements in (λ h. cc, λ h. cc (h.1))

  -- The validator accepts a value exactly when the reader makes a probe of it whose destination is
  -- an IPv6 address and whose protocol is udp or icmpv6.
  pub validate_json_probe_iff :
      (v : Value)
      → (validate_json_probe ip_from_str v ≡ ok tt)
        ↔ ((p : Probe) × (from_json ip_from_str v ≡ ok p) × IsAccepted p)
  unfolding validate_json_probe from_json
  validate_json_probe_iff (array arr) = elements_iff (elements arr)
  validate_json_probe_iff null = (λ h. cc, λ h. cc (h.1))
  validate_json_probe_iff _ = (λ h. cc, λ h. cc (h.1))

  -- The ranges that a read probe keeps: ports of 16 bits and a time to live of 8 bits, none of them
  -- zero.
  pub record InRange (p : Probe) : Type 0 where
    pub src_port : IsPort p.src_port
    pub dst_port : IsPort p.dst_port
    pub ttl : (0 < p.ttl) × (p.ttl ≤ u8_max)

  elements_InRange :
      (arr : List Value) (p : Probe) → from_elements ip_from_str arr ≡ ok p → InRange p
  unfolding from_elements
  elements_InRange (a ∷ b ∷ c ∷ d ∷ e ∷ []) p h =
      let (ip, ha, h1) = >>=-eq-ok (parse_ip_from_json ip_from_str a) _ h in
      let (sp, hb, h2) = >>=-eq-ok (parse_port_from_json b "Source port") _ h1 in
      let (dp, hc, h3) = >>=-eq-ok (parse_port_from_json c "Destination port") _ h2 in
      let (t, hd, h4) = >>=-eq-ok (parse_ttl_from_json d) _ h3 in
      let (pr, he, h5) = >>=-eq-ok (parse_protocol_from_json e) _ h4 in
      let same_src : sp ≡ p.src_port = cc in
      let same_dst : dp ≡ p.dst_port = cc in
      let same_ttl : t ≡ p.ttl = cc in
      record {
        src_port = subst IsPort same_src (IsPort-bounds b "Source port" sp hb);
        dst_port = subst IsPort same_dst (IsPort-bounds c "Destination port" dp hc);
        ttl = subst (λ n. (0 < n) × (n ≤ u8_max)) same_ttl (ttl_bounds d t hd);
      }
  elements_InRange [] p h = cc
  elements_InRange _ p h = cc

  -- A probe that is read from JSON has ports between 1 and 65535 and a time to live between 1 and
  -- 255.
  pub from_json-InRange : (v : Value) (p : Probe) → from_json ip_from_str v ≡ ok p → InRange p
  unfolding from_json
  from_json-InRange (array arr) p h = elements_InRange (elements arr) p h
  from_json-InRange null p h = cc
  from_json-InRange _ p h = cc
