-- ===== src/Prefix/Ipnet.antt =====
-- What src/lib.rs uses of the crate ipnet, with the documented behaviour that it relies on.
-- Addresses are 128-bit numbers.
use saimiris_gateway.Prelude.{
  ℕ, ◌-◌, ◌*◌, ◌/◌, ◌^◌, ◌≤◌, String, Bool, true, Option, some, ◌≡◌, ◌↔◌,
}

pub record Ipnet : Type 1 where
  pub Ipv6Net : Type 0
  pub parse : String → Option Ipv6Net
  pub addr : Ipv6Net → ℕ
  pub prefix_len : Ipv6Net → ℕ
  pub network : Ipv6Net → ℕ
  pub new : ℕ → ℕ → Option Ipv6Net
  pub contains : Ipv6Net → ℕ → Bool
  -- `network` clears the host bits.
  pub network_lem :
      (n : Ipv6Net)
      → prefix_len n ≤ 128
      → network n ≡ addr n / 2 ^ (128 - prefix_len n) * 2 ^ (128 - prefix_len n)
  -- `new` fails for no length up to 128.
  pub new_lem :
      (a l : ℕ) → l ≤ 128 → (n : Ipv6Net) × (new a l ≡ some n) × (addr n ≡ a) × (prefix_len n ≡ l)
  -- A network contains the addresses that share its leading bits.
  pub contains_iff :
      (n : Ipv6Net) (ip : ℕ)
      → (contains n ip ≡ true) ↔ (ip / 2 ^ (128 - prefix_len n) ≡ addr n / 2 ^ (128 - prefix_len n))
