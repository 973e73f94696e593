-- ===== src/Handlers/Agents.antt =====
-- src/lib.rs: the handlers over the agent store. Those for agents answer errors with a status code
-- alone.
pub mod Reports
pub mod Registration
pub mod Offers
use saimiris_gateway.Prelude.{
  ℕ, zero, suc, ◌+◌, ◌*◌, String, Bool, true, false, Option, none, some, List, [], ◌∷◌, map, ◌==◌,
  if◌then◌else◌, is_empty, Result, ok, err, codes, codes_eq,
}
use saimiris_gateway.Prelude.Int.{ℤ, pos}
use saimiris_gateway.Http.{
  Failure, responds, panics, Handler, unauthorized, not_found, conflict, internal_server_error,
}
use saimiris_gateway.Agent.{
  Agent, AgentConfig, HealthStatus, AgentStore, get, add_agent, update_config, update_health,
  list_all, list_healthy_agents,
}
use saimiris_gateway.Prefix.Ipnet.{Ipnet}
use saimiris_gateway.Prefix.{calculate_user_prefix}
use saimiris_gateway.UserId.{UserIdError}

abbrev pub AgentHandler : Type 0 → Type 0
AgentHandler A = Handler AgentStore (Unit {0}) A

abbrev pub bearer : List ℕ
bearer = codes "Bearer "

-- `strip_prefix`
abbrev pub strip_prefix : List ℕ → List ℕ → Option (List ℕ)
strip_prefix [] s = some s
strip_prefix (c ∷ p) [] = none
strip_prefix (c ∷ p) (d ∷ s) = if c == d then strip_prefix p s else none

-- Whether the request goes on to its handler, or is answered with a status code. The header is
-- given where it is there and is text.
unfoldable pub validate_agent_key : String → Option (List ℕ) → Result ℕ (Unit {0})
validate_agent_key agent_key none = err unauthorized
validate_agent_key agent_key (some authorization) = elim (strip_prefix bearer authorization) [
  | none ↦ err unauthorized
  | some key ↦ if codes_eq key (codes agent_key) then ok tt else err unauthorized
]

-- Ten minutes, in nanoseconds.
abbrev pub health_max_age : ℤ
health_max_age = pos (10 * 60 * 1000000000)

unfoldable pub list_agents : ℕ → AgentHandler (List Agent)
list_agents now s = (ok (list_healthy_agents s health_max_age now), s)

unfoldable pub get_agent : String → AgentHandler Agent
get_agent id s = elim (get s id) [
  | some agent ↦ (ok agent, s)
  | none ↦ (err (responds not_found tt), s)
]

unfoldable pub get_agent_config : String → AgentHandler (List AgentConfig)
get_agent_config id s = elim (get s id) [
  | none ↦ (err (responds not_found tt), s)
  | some agent ↦ elim agent.config [
    | some config ↦ (ok config, s)
    | none ↦ (err (responds not_found tt), s)
  ]
]

unfoldable pub get_agent_health : String → AgentHandler HealthStatus
get_agent_health id s = elim (get s id) [
  | none ↦ (err (responds not_found tt), s)
  | some agent ↦ elim agent.health [
    | some health ↦ (ok health, s)
    | none ↦ (err (responds not_found tt), s)
  ]
]

pub record RegisterAgentRequest : Type 0 where
  pub id : String
  pub secret : String

-- `get(..).await.unwrap()` after a registration.
abbrev pub unwrap : Option Agent → Result (Failure (Unit {0})) Agent
unwrap (some agent) = ok agent
unwrap none = err panics

module _ (others : AgentStore → AgentStore) where
  unfoldable pub register_agent : RegisterAgentRequest → ℕ → AgentHandler Agent
  register_agent payload now s =
      let (added, s') = add_agent s payload.id payload.secret now in
      elim added [
        | ok _ ↦ (unwrap (get (others s') payload.id), others s')
        | err _ ↦ (err (responds conflict tt), s')
      ]

  unfoldable pub update_agent_config :
      String → List AgentConfig → ℕ → AgentHandler (List AgentConfig)
  update_agent_config id config now s = elim (get s id) [
    | none ↦ (err (responds not_found tt), s)
    | some _ ↦ (ok config, update_config (others s) id config now)
  ]

  unfoldable pub update_agent_health : String → HealthStatus → ℕ → AgentHandler HealthStatus
  update_agent_health id health now s = elim (get s id) [
    | none ↦ (err (responds not_found tt), s)
    | some _ ↦ (ok health, update_health (others s) id health now)
  ]

pub record PrefixOffer : Type 0 where
  pub agent_prefix : String
  pub user_prefix : ℕ × ℕ

pub record AgentPrefixes : Type 0 where
  pub agent_id : String
  pub prefixes : List PrefixOffer

pub record UserPrefixes : Type 0 where
  pub user_id : ℕ
  pub agents : List AgentPrefixes

module _ (ipnet : Ipnet) where
  abbrev pub offer : Option (ℕ × ℕ) → String → List PrefixOffer → List PrefixOffer
  offer none agent_prefix rest = rest
  offer (some user_prefix) agent_prefix rest =
      record { agent_prefix = agent_prefix; user_prefix = user_prefix } ∷ rest

  unfoldable pub config_prefixes : ℕ → List AgentConfig → List PrefixOffer
  config_prefixes user_id [] = []
  config_prefixes user_id (agent_config ∷ config) =
      let rest = config_prefixes user_id config in
      elim agent_config.src_ipv6_prefix [
        | none ↦ rest
        | some agent_prefix ↦
            offer (calculate_user_prefix ipnet agent_prefix user_id) agent_prefix rest
      ]

  unfoldable pub agent_prefixes : ℕ → List Agent → List AgentPrefixes
  agent_prefixes user_id [] = []
  agent_prefixes user_id (agent ∷ agents) =
      let rest = agent_prefixes user_id agents in
      elim agent.config [
        | none ↦ rest
        | some config ↦
            let prefixes = config_prefixes user_id config in
            if is_empty prefixes
            then rest
            else record { agent_id = agent.id; prefixes = prefixes } ∷ rest
      ]

  -- The store is the one at the time of `list_all`, after the user's id is found.
  unfoldable pub get_user_prefixes :
      {S : Type 0}
      → (S → String → Result UserIdError ℕ × S)
      → AgentStore
      → String
      → Handler S UserIdError UserPrefixes
  get_user_prefixes get_or_create_user_id store sub s =
      let (found, s') = get_or_create_user_id s sub in
      elim found [
        | err e ↦ (err (responds internal_server_error e), s')
        | ok user_id ↦ (
          ok (record { user_id = user_id; agents = agent_prefixes user_id (list_all store) }),
          s',
        )
      ]
