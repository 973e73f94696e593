-- ===== src/Submit/Checks.antt =====
-- The checks on the agents of a request.
use saimiris_gateway.Prelude.{
  ℕ, ◌+◌, Bool, true, false, none, some, List, [], ◌∷◌, ◌≡◌, refl, inl, inr, arith, filter, any,
  Option-cases,
}
use saimiris_gateway.Net.{v6}
use saimiris_gateway.Agent.{Agent, AgentConfig, AgentStore, get}
use saimiris_gateway.Prefix.Ipnet.{Ipnet}
use saimiris_gateway.Submit.{
  AgentMetadata, is_healthy, assign_agents, allows, check_prefix, check_prefixes,
}

-- An agent of the request is known and healthy in a store.
abbrev pub is_assignable : AgentStore → AgentMetadata → Bool
is_assignable store m = elim (get store m.id) [ some a ↦ is_healthy a | none ↦ false ]

-- With a store that does not change during the request, the agents assigned are those of the
-- request, in order, that are registered and whose last report is healthy.
pub assign_agents-filter :
    (store : AgentStore) (i : ℕ) (metadata : List AgentMetadata)
    → assign_agents (λ _. store) i metadata ≡ filter (is_assignable store) metadata
unfolding assign_agents
assign_agents-filter store i [] = refl
assign_agents-filter store i (m ∷ metadata) =
    ground (arith, assign_agents-filter store (i + 1) metadata)

module _ (ipnet : Ipnet) where
  -- What the prefix check asks of one agent of the request: an IPv6 address, under an agent that is
  -- registered and has sent a configuration, is accepted for the user by one of its prefixes.
  abbrev pub Owns : AgentStore → ℕ → AgentMetadata → Type 0
  Owns store user_id m =
      (a : ℕ) (agent : Agent) (config : List AgentConfig)
      → m.ip_address ≡ some (v6 a)
      → get store m.id ≡ some agent
      → agent.config ≡ some config
      → any (allows ipnet a user_id) config ≡ true

  check_prefix-Owns :
      (store : AgentStore) (user_id : ℕ) (m : AgentMetadata)
      → check_prefix ipnet store user_id m ≡ none
      → Owns store user_id m
  unfolding check_prefix
  check_prefix-Owns store user_id m h a agent config ip known sent = ground arith

  -- Every agent of the request passes in the store of its own time.
  abbrev pub AllOwn : (ℕ → AgentStore) → ℕ → ℕ → List AgentMetadata → Type 0
  AllOwn checked i user_id [] = Unit
  AllOwn checked i user_id (m ∷ metadata) =
      Owns (checked i) user_id m × AllOwn checked (i + 1) user_id metadata

  -- When the prefix check lets a request through, each IPv6 address in it that goes to a registered
  -- and configured agent is accepted for the user by one of the agent's prefixes.
  pub check_prefixes-AllOwn :
      (checked : ℕ → AgentStore) (i user_id : ℕ) (metadata : List AgentMetadata)
      → check_prefixes ipnet checked i user_id metadata ≡ none
      → AllOwn checked i user_id metadata
  unfolding check_prefixes
  check_prefixes-AllOwn checked i user_id [] h = tt
  check_prefixes-AllOwn checked i user_id (m ∷ metadata) h =
      elim (Option-cases (check_prefix ipnet (checked i) user_id m)) [
        | inl e ↦ (
          check_prefix-Owns (checked i) user_id m e,
          check_prefixes-AllOwn checked (i + 1) user_id metadata (ground arith),
        )
        | inr (r, e) ↦ absurd (ground arith)
      ]
