-- ===== src/Main/Cleanup.antt =====
-- The background task beside the list of agents that clients are shown.
use saimiris_gateway.Prelude.{
  ℕ, String, true, false, not, none, Option-cases, List, [], ◌∷◌, map, filter, ◌≡◌, refl, ap, arith,
  All, if◌then◌else◌, ok, ◌⊎◌, inl, inr,
}
use saimiris_gateway.Agent.{
  Agent, AgentStore, is_stale, is_recent, remove_stale_agents, list_healthy_agents, list_all,
}
use saimiris_gateway.Handlers.Agents.{list_agents, health_max_age}
use saimiris_gateway.Main.{cleanup_tick, cleanup_max_age}

-- An agent has never reported, or is stale, or is shown.
health-cases :
    (now : ℕ) (a : Agent)
    → ((is_stale cleanup_max_age now a ≡ true) × (is_recent cleanup_max_age now a ≡ false))
      ⊎ ((is_stale cleanup_max_age now a ≡ false)
          × ((a.health ≡ none) ⊎ (is_recent cleanup_max_age now a ≡ true)))
health-cases now a = elim (Option-cases a.health) [
  | inl e ↦ rw e (inr (refl, inl refl))
  | inr (report, e) ↦ rw e (ground arith)
]

same_shown :
    (now : ℕ) (m : List (String × Agent))
    → filter
        (is_recent cleanup_max_age now)
        (map (λ e. e.1) (filter (λ e. not (is_stale cleanup_max_age now e.1)) m))
      ≡ filter (is_recent cleanup_max_age now) (map (λ e. e.1) m)
same_shown now [] = refl
same_shown now ((k, a) ∷ m) = elim (health-cases now a) [
  | inl (stale, hidden) ↦ rw (stale, hidden) (same_shown now m)
  | inr (kept, _) ↦
      rw kept (ap (λ l. if is_recent cleanup_max_age now a then a ∷ l else l) (same_shown now m))
]

kept_All :
    (now : ℕ) (m : List (String × Agent))
    → All
        (λ (e : String × Agent). (e.1.health ≡ none) ⊎ (is_recent cleanup_max_age now e.1 ≡ true))
        (filter (λ e. not (is_stale cleanup_max_age now e.1)) m)
kept_All now [] = tt
kept_All now ((k, a) ∷ m) = elim (health-cases now a) [
  | inl (stale, hidden) ↦ rw stale (kept_All now m)
  | inr (kept, h) ↦ rw kept (h, kept_All now m)
]

-- A clean-up is not seen by the clients: the agents that they are shown at that time are the same
-- before and after it. What it leaves are those agents and those that have never reported health.
pub cleanup_tick-list_agents :
    (s : AgentStore) (now : ℕ)
    → ((list_agents now (cleanup_tick s now).1).0 ≡ (list_agents now s).0)
      × All
          (λ (e : String × Agent). (e.1.health ≡ none) ⊎ (is_recent health_max_age now e.1 ≡ true))
          (cleanup_tick s now).1.agents
unfolding list_agents cleanup_tick remove_stale_agents list_healthy_agents list_all
cleanup_tick-list_agents s now = (ap ok (same_shown now s.agents), kept_All now s.agents)
