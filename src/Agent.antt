-- ===== src/Agent.antt =====
-- src/agent.rs: the agents, their reports and the store that keeps them. The map behind the lock is
-- a list of its entries in the order of iteration, which Rust leaves open; each method holds the
-- lock from start to end, so it is one step. Times are instants counted from the earliest one that
-- chrono knows, and a call that reads the clock takes the time as its last argument.
pub mod Config
pub mod Invariant
pub mod Freshness
pub mod Abstract
use saimiris_gateway.Prelude.{
  ℕ, String, Bool, true, false, Option, none, some, List, [], ◌∷◌, map, str_eq, filter, not,
  if◌then◌else◌, Result, ok, err,
}
use saimiris_gateway.Prelude.Int.{ℤ, sub_ℕ, ltb_ℤ, leb_ℤ}
use saimiris_gateway.Prelude.Map.{Map, lookup, insert, remove, modify}

pub record AgentConfig : Type 0 where
  pub name : Option String
  pub batch_size : ℕ
  pub instance_id : ℕ
  pub dry_run : Bool
  pub min_ttl : Option ℕ
  pub max_ttl : Option ℕ
  pub integrity_check : Bool
  pub interface : String
  pub src_ipv4_prefix : Option String
  pub src_ipv6_prefix : Option String
  pub packets : ℕ
  pub probing_rate : ℕ
  pub rate_limiting_method : String

pub record HealthStatus : Type 0 where
  pub healthy : Bool
  pub last_check : ℕ
  pub message : Option String

pub record Agent : Type 0 where
  pub id : String
  pub secret : String
  pub config : Option (List AgentConfig)
  pub health : Option HealthStatus
  pub last_seen : ℕ

unfoldable pub new_agent : String → String → ℕ → Agent
new_agent id secret now = record {
  id = id;
  secret = secret;
  config = none;
  health = none;
  last_seen = now;
}

pub record AgentStore : Type 0 where
  pub agents : Map Agent

abbrev pub new_store : AgentStore
new_store = record { agents = [] }

pub data StoreError : Type 0 where
  already_exists : String → StoreError

unfoldable pub get : AgentStore → String → Option Agent
get s id = lookup id s.agents

register :
    AgentStore → String → String → ℕ → Option Agent → Result StoreError (Unit {0}) × AgentStore
unfolding new_agent
register s id secret now (some existing) =
    if str_eq existing.secret secret then (ok tt, s) else (err (already_exists id), s)
register s id secret now none =
    (ok tt, record { agents = insert id (new_agent id secret now) s.agents })

unfoldable pub add_agent :
    AgentStore → String → String → ℕ → Result StoreError (Unit {0}) × AgentStore
unfolding register
add_agent s id secret now = register s id secret now (lookup id s.agents)

unfoldable pub list_all : AgentStore → List Agent
list_all s = map (λ e. e.1) s.agents

unfoldable pub update_last_seen : AgentStore → String → ℕ → AgentStore
update_last_seen s id now = record {
  agents = modify id (λ a. record a { last_seen = now }) s.agents;
}

unfoldable pub update_config : AgentStore → String → List AgentConfig → ℕ → AgentStore
update_config s id config now = record {
  agents = modify id (λ a. record a { config = some config; last_seen = now }) s.agents;
}

unfoldable pub update_health : AgentStore → String → HealthStatus → ℕ → AgentStore
update_health s id health now = record {
  agents = modify id (λ a. record a { health = some health; last_seen = now }) s.agents;
}

unfoldable pub remove_agent : AgentStore → String → Bool × AgentStore
remove_agent s id = (
  elim (lookup id s.agents) [ some _ ↦ true | none ↦ false ],
  record { agents = remove id s.agents },
)

-- `now.signed_duration_since(last_check)`
abbrev pub age : ℕ → HealthStatus → ℤ
age now h = sub_ℕ now h.last_check

-- The test of `remove_stale_agents`: a health report older than `max_age`.
abbrev pub is_stale : ℤ → ℕ → Agent → Bool
is_stale max_age now a = elim a.health [ some h ↦ ltb_ℤ max_age (age now h) | none ↦ false ]

unfoldable pub remove_stale_agents : AgentStore → ℤ → ℕ → List String × AgentStore
remove_stale_agents s max_age now = (
  map (λ e. e.0) (filter (λ e. is_stale max_age now e.1) s.agents),
  record { agents = filter (λ e. not (is_stale max_age now e.1)) s.agents },
)

-- The test of `list_healthy_agents`: a health report of at most `max_age`.
abbrev pub is_recent : ℤ → ℕ → Agent → Bool
is_recent max_age now a = elim a.health [ some h ↦ leb_ℤ (age now h) max_age | none ↦ false ]

unfoldable pub list_healthy_agents : AgentStore → ℤ → ℕ → List Agent
unfolding list_all
list_healthy_agents s max_age now = filter (is_recent max_age now) (list_all s)

-- A call of the store that changes it, with the time at which it runs.
pub data Call : Type 0 where
  adds : String → String → Call
  sees : String → Call
  configures : String → List AgentConfig → Call
  reports : String → HealthStatus → Call
  removes : String → Call
  cleans : ℤ → Call

unfoldable pub apply : AgentStore → ℕ × Call → AgentStore
apply s (now, adds id secret) = (add_agent s id secret now).1
apply s (now, sees id) = update_last_seen s id now
apply s (now, configures id config) = update_config s id config now
apply s (now, reports id health) = update_health s id health now
apply s (now, removes id) = (remove_agent s id).1
apply s (now, cleans max_age) = (remove_stale_agents s max_age now).1

unfoldable pub run : AgentStore → List (ℕ × Call) → AgentStore
run s [] = s
run s (c ∷ cs) = run (apply s c) cs
