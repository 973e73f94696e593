-- ===== src/Probe/Wire.antt =====
-- The Cap'n Proto message of schemas/probe.capnp, as src/probe.rs fills its builder.
use saimiris_gateway.Prelude.{ℕ, List}

pub data Protocol : Type 0 where
  tcp udp icmp icmpv6 : Protocol

pub record Message : Type 0 where
  pub dst_addr : List ℕ
  pub src_port : ℕ
  pub dst_port : ℕ
  pub ttl : ℕ
  pub protocol : Protocol
