-- ===== src/Agent/Abstract.antt =====
-- The agent store as a map from ids to agents, which forgets how its entries are kept.
use mathlib.Core.Option
use mathlib.Core.Path.{fun_ext}
use saimiris_gateway.Prelude.{
  ℕ, String, Option, none, some, List, [], ◌∷◌, ◌≡◌, refl, ap, ◌∙◌, arith, str_eq, eq_iff,
  if◌then◌else◌,
}
use saimiris_gateway.Prelude.Int.{ℤ, leb_ℤ}
use saimiris_gateway.Prelude.Map.{lookup, lookup-modify, lookup-remove}
use saimiris_gateway.Agent.{
  Agent, AgentStore, age, get, new_store, new_agent, update_last_seen, update_config, update_health,
  remove_agent, Call, adds, sees, configures, reports, removes, cleans, apply, run,
}
use saimiris_gateway.Agent.Invariant.{IsWellFormed, apply-IsWellFormed, get-add_agent}
use saimiris_gateway.Agent.Freshness.{get-remove_stale_agents}

-- What a client of the store sees.
abbrev pub View : Type 0
View = String → Option Agent

abbrev pub view : AgentStore → View
view s id = get s id

abbrev change : (Agent → Agent) → String → View → View
change f id m j = if str_eq id j then Option.map f (m j) else m j

abbrev keep_recent : ℤ → ℕ → Agent → Option Agent
keep_recent max_age now a = elim a.health [
  | none ↦ some a
  | some h ↦ if leb_ℤ (age now h) max_age then some a else none
]

-- What each call promises: a registration enters a new agent and leaves a known one, a report
-- changes the agent of its id, a removal takes it away, and a clean-up takes away those whose
-- health report is too old.
abbrev pub promised : View → ℕ × Call → View
promised m (now, adds id secret) j = elim (m j) [
  | some a ↦ some a
  | none ↦
      if str_eq id j
      then some (record { id = id; secret = secret; config = none; health = none; last_seen = now })
      else none
]
promised m (now, sees id) j = change (λ a. record a { last_seen = now }) id m j
promised m (now, configures id config) j =
    change (λ a. record a { config = some config; last_seen = now }) id m j
promised m (now, reports id health) j =
    change (λ a. record a { health = some health; last_seen = now }) id m j
promised m (now, removes id) j = if str_eq id j then none else m j
promised m (now, cleans max_age) j = elim (m j) [ none ↦ none | some a ↦ keep_recent max_age now a ]

unfoldable pub promised_run : View → List (ℕ × Call) → View
promised_run m [] = m
promised_run m (c ∷ cs) = promised_run (promised m c) cs

apply_at :
    (s : AgentStore) (c : ℕ × Call) (j : String)
    → IsWellFormed s
    → view (apply s c) j ≡ promised (view s) c j
unfolding get apply update_last_seen update_config update_health remove_agent
apply_at s (now, adds id secret) j w =
    (get-add_agent s id secret j now).0 ∙ unfold new_agent in ground (arith, eq_iff id j)
apply_at s (now, sees id) j w = lookup-modify id j _ s.agents
apply_at s (now, configures id config) j w = lookup-modify id j _ s.agents
apply_at s (now, reports id health) j w = lookup-modify id j _ s.agents
apply_at s (now, removes id) j w = lookup-remove id j s.agents w.distinct
apply_at s (now, cleans max_age) j w = get-remove_stale_agents s max_age now j w ∙ ground arith

run_from :
    (s : AgentStore) (cs : List (ℕ × Call))
    → IsWellFormed s
    → view (run s cs) ≡ promised_run (view s) cs
unfolding run promised_run
run_from s [] w = refl
run_from s (c ∷ cs) w =
    run_from (apply s c) cs (apply-IsWellFormed s c w)
    ∙ ap (λ m. promised_run m cs) (fun_ext (λ j. apply_at s c j w))

-- Any calls of a new store leave what they promise, one after the other, of an empty map: the
-- store implements the map.
pub run-promised_run :
    (cs : List (ℕ × Call)) → view (run new_store cs) ≡ promised_run (λ _. none) cs
unfolding get lookup
run-promised_run cs = run_from new_store cs (record { distinct = tt; filed = tt })
