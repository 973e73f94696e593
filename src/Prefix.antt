-- ===== src/Prefix.antt =====
-- src/lib.rs: the part of an agent's IPv6 prefix that belongs to a user. A user's prefix is the
-- agent's network followed by the 32 bits of the user id. The crate ipnet is an interface.
pub mod Ipnet
mod BitOr
pub mod Ownership
use saimiris_gateway.Prelude.{
  ℕ, ◌+◌, ◌-◌, ◌*◌, ◌^◌, String, Bool, true, false, Option, none, some, ltb, if◌then◌else◌,
}
use Prim.Native.Nat.{bit_or}
use mathlib.Core.Option

module _ (ipnet : Ipnet.Ipnet) where
  open ipnet use {Ipv6Net, parse, prefix_len, network, new, contains}

  -- `network_u128 | (user_id as u128) << (128 - prefix_len - 32)`
  abbrev pub user_addr : Ipv6Net → ℕ → ℕ
  user_addr agent_net user_id =
      let user_id_shift = 128 - prefix_len agent_net - 32 in
      bit_or (network agent_net) (user_id * 2 ^ user_id_shift)

  unfoldable pub calculate_user_prefix_addr : String → ℕ → Option ℕ
  calculate_user_prefix_addr agent_prefix user_id = elim (parse agent_prefix) [
    | none ↦ none
    | some agent_net ↦
        if ltb 96 (prefix_len agent_net) then none else some (user_addr agent_net user_id)
  ]

  unfoldable pub validate_user_ipv6 : ℕ → String → ℕ → Bool
  validate_user_ipv6 user_ip agent_prefix user_id = elim (parse agent_prefix) [
    | none ↦ false
    | some agent_net ↦
        if ltb 96 (prefix_len agent_net)
        then false
        else elim (calculate_user_prefix_addr agent_prefix user_id) [
          | none ↦ false
          | some user_prefix_addr ↦ elim (new user_prefix_addr (prefix_len agent_net + 32)) [
            | none ↦ false
            | some user_net ↦ contains user_net user_ip
          ]
        ]
  ]

  -- The address and the length that `format!("{}/{}", …)` writes.
  unfoldable pub calculate_user_prefix : String → ℕ → Option (ℕ × ℕ)
  calculate_user_prefix agent_prefix user_id = elim (parse agent_prefix) [
    | none ↦ none
    | some agent_net ↦
        if ltb 96 (prefix_len agent_net)
        then none
        else elim (calculate_user_prefix_addr agent_prefix user_id) [
          | none ↦ none
          | some user_prefix_addr ↦ some (user_prefix_addr, prefix_len agent_net + 32)
        ]
  ]
