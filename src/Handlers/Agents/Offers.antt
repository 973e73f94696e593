-- ===== src/Handlers/Agents/Offers.antt =====
-- The prefixes that `get_user_prefixes` tells a user of.
use saimiris_gateway.Prelude.{
  ℕ, ◌-◌, ◌/◌, ◌^◌, String, true, false, Option, none, some, List, [], ◌∷◌, ◌≡◌, inl, inr, All,
  Option-cases, Bool-cases, is_empty,
}
use saimiris_gateway.Agent.{Agent, AgentConfig}
use saimiris_gateway.Prefix.Ipnet.{Ipnet}
use saimiris_gateway.Prefix.{calculate_user_prefix, validate_user_ipv6}
use saimiris_gateway.Prefix.Ownership.{Describes, calculate_user_prefix-validate}
use saimiris_gateway.Handlers.Agents.{PrefixOffer, offer, config_prefixes, agent_prefixes}

-- Every address in a prefix that is offered is accepted for the user.
abbrev pub IsAccepting : Ipnet → ℕ → PrefixOffer → Type 0
IsAccepting ipnet user_id o =
    (ip : ℕ)
    → ip / 2 ^ (128 - o.user_prefix.1) ≡ o.user_prefix.0 / 2 ^ (128 - o.user_prefix.1)
    → validate_user_ipv6 ipnet ip o.agent_prefix user_id ≡ true

module _ (ipnet : Ipnet) (user_id : ℕ) where
  offered :
      (p : String) (o : Option (ℕ × ℕ)) (rest : List PrefixOffer)
      → Describes ipnet p user_id o
      → All (IsAccepting ipnet user_id) rest
      → All (IsAccepting ipnet user_id) (offer ipnet o p rest)
  offered p none rest h t = t
  offered p (some (a, l)) rest h t = (λ ip e. (h ip).1 e, t)

  config_prefixes-IsAccepting :
      (config : List AgentConfig)
      → All (IsAccepting ipnet user_id) (config_prefixes ipnet user_id config)
  unfolding config_prefixes
  config_prefixes-IsAccepting [] = tt
  config_prefixes-IsAccepting (c ∷ config) =
      let rest = config_prefixes-IsAccepting config in
      elim (Option-cases c.src_ipv6_prefix) [
        | inl e ↦ rw e rest
        | inr (p, e) ↦ rw e (
            offered p (calculate_user_prefix ipnet p user_id) (config_prefixes ipnet user_id config)
              (calculate_user_prefix-validate ipnet p user_id) rest)
      ]

  -- The prefixes that a user is told of are the user's: every address in one of them is accepted
  -- for the user under the agent prefix beside it; and no agent is listed without a prefix.
  pub agent_prefixes-IsAccepting :
      (agents : List Agent)
      → All
          (λ r. (is_empty r.prefixes ≡ false) × All (IsAccepting ipnet user_id) r.prefixes)
          (agent_prefixes ipnet user_id agents)
  unfolding agent_prefixes
  agent_prefixes-IsAccepting [] = tt
  agent_prefixes-IsAccepting (a ∷ agents) =
      let rest = agent_prefixes-IsAccepting agents in
      elim (Option-cases a.config) [
        | inl e ↦ rw e rest
        | inr (config, e) ↦ elim (Bool-cases (is_empty (config_prefixes ipnet user_id config))) [
          | inl empty ↦ rw (e, empty) rest
          | inr full ↦ rw (e, full) ((full, config_prefixes-IsAccepting config), rest)
        ]
      ]
