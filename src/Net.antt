-- ===== src/Net.antt =====
-- `std::net::IpAddr` as the numbers that the program takes addresses for.
pub mod Bytes
use saimiris_gateway.Prelude.{ℕ}

pub data IpAddr : Type 0 where
  v4 : ℕ → IpAddr
  v6 : ℕ → IpAddr
