-- ===== src/Agent/Freshness.antt =====
-- The clean-up of stale agents against the list of healthy ones.
use saimiris_gateway.Prelude.{
  ℕ, String, not, none, some, [], ◌∷◌, map, ◌≡◌, refl, arith, filter, if◌then◌else◌,
}
use saimiris_gateway.Prelude.Int.{ℤ, leb_ℤ}
use saimiris_gateway.Prelude.Map.{Map, lookup-filter}
use saimiris_gateway.Agent.{
  Agent, AgentStore, get, list_all, remove_stale_agents, list_healthy_agents, is_stale, is_recent,
  age,
}
use saimiris_gateway.Agent.Invariant.{IsWellFormed}

recent_after_clean :
    (max_age : ℤ) (now : ℕ) (m : Map Agent)
    → filter
        (is_recent max_age now)
        (map (λ e. e.1) (filter (λ e. not (is_stale max_age now e.1)) m))
      ≡ filter (is_recent max_age now) (map (λ e. e.1) m)
recent_after_clean max_age now [] = refl
recent_after_clean max_age now ((k, a) ∷ m) = ground (arith, recent_after_clean max_age now m)

-- A clean-up removes no agent that the healthy list with the same age limit and at the same time
-- shows.
pub list_healthy_agents-remove_stale_agents :
    (s : AgentStore) (max_age : ℤ) (now : ℕ)
    → list_healthy_agents (remove_stale_agents s max_age now).1 max_age now
      ≡ list_healthy_agents s max_age now
unfolding list_healthy_agents list_all remove_stale_agents
list_healthy_agents-remove_stale_agents s max_age now = recent_after_clean max_age now s.agents

-- After a clean-up of a well-formed store an id has its agent exactly when that agent never sent a health report or sent
-- its last one at most `max_age` ago; such an agent is unchanged.
pub get-remove_stale_agents :
    (s : AgentStore) (max_age : ℤ) (now : ℕ) (id : String)
    → IsWellFormed s
    → get (remove_stale_agents s max_age now).1 id ≡ elim (get s id) [
      | none ↦ none
      | some a ↦ elim a.health [
        | none ↦ some a
        | some h ↦ if leb_ℤ (age now h) max_age then some a else none
      ]
    ]
unfolding get remove_stale_agents
get-remove_stale_agents s max_age now id w =
    ground (arith, lookup-filter (λ b. not (is_stale max_age now b)) id s.agents w.distinct)
