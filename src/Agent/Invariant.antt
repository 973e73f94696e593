-- ===== src/Agent/Invariant.antt =====
-- What holds of the agent store after any calls.
use saimiris_gateway.Prelude.{
  ℕ, String, not, Option, none, some, List, [], ◌∷◌, ◌≡◌, refl, All, arith, str_eq, eq_iff,
  if◌then◌else◌, ok, err,
}
use saimiris_gateway.Prelude.Map.{
  Distinct, lookup, modify, lookup-insert, lookup-modify, lookup-remove, lookup-filter,
  Distinct-insert, Distinct-modify, Distinct-remove, Distinct-filter, All-insert, All-modify,
  All-remove, All-filter,
}
use saimiris_gateway.Agent.{
  Agent, AgentStore, already_exists, new_store, new_agent, get, add_agent, update_last_seen,
  update_config, update_health, remove_agent, remove_stale_agents, is_stale, Call, adds, sees,
  configures, reports, removes, cleans, apply, run,
}

abbrev pub Filed : String × Agent → Type 0
Filed e = e.0 ≡ e.1.id

-- One entry to a key, and each agent under its own id.
pub record IsWellFormed (s : AgentStore) : Type 0 where
  pub distinct : Distinct s.agents
  pub filed : All Filed s.agents

modify-IsWellFormed :
    (s : AgentStore) (k : String) (f : Agent → Agent)
    → ((a : Agent) → (f a).id ≡ a.id)
    → IsWellFormed s
    → IsWellFormed (record { agents = modify k f s.agents })
modify-IsWellFormed s k f same w = record {
  distinct = Distinct-modify k f s.agents w.distinct;
  filed = All-modify Filed k f s.agents (λ j v h. cc (same v)) w.filed;
}

add_agent-IsWellFormed :
    (s : AgentStore) (id secret : String) (now : ℕ)
    → IsWellFormed s
    → IsWellFormed (add_agent s id secret now).1
unfolding add_agent new_agent
add_agent-IsWellFormed s id secret now w = ground (
  arith,
  Distinct-insert id (new_agent id secret now) s.agents,
  All-insert Filed id (new_agent id secret now) s.agents refl,
)

-- Every call keeps one entry to each key, and each agent under its own id.
pub apply-IsWellFormed : (s : AgentStore) (c : ℕ × Call) → IsWellFormed s → IsWellFormed (apply s c)
unfolding apply update_last_seen update_config update_health remove_agent remove_stale_agents
apply-IsWellFormed s (now, adds id secret) w = add_agent-IsWellFormed s id secret now w
apply-IsWellFormed s (now, sees id) w = modify-IsWellFormed s id _ (λ _. refl) w
apply-IsWellFormed s (now, configures id config) w = modify-IsWellFormed s id _ (λ _. refl) w
apply-IsWellFormed s (now, reports id health) w = modify-IsWellFormed s id _ (λ _. refl) w
apply-IsWellFormed s (now, removes id) w = record {
  distinct = Distinct-remove id s.agents w.distinct;
  filed = All-remove Filed id s.agents w.filed;
}
apply-IsWellFormed s (now, cleans max_age) w = record {
  distinct = Distinct-filter _ s.agents w.distinct;
  filed = All-filter Filed _ s.agents w.filed;
}

run-IsWellFormed :
    (s : AgentStore) (cs : List (ℕ × Call)) → IsWellFormed s → IsWellFormed (run s cs)
unfolding run
run-IsWellFormed s [] w = w
run-IsWellFormed s (c ∷ cs) w = run-IsWellFormed (apply s c) cs (apply-IsWellFormed s c w)

-- After any calls on an empty store there is one entry to each key, and each agent is filed under
-- its own id.
pub run-new_store-IsWellFormed : (cs : List (ℕ × Call)) → IsWellFormed (run new_store cs)
run-new_store-IsWellFormed cs = run-IsWellFormed new_store cs (record { distinct = tt; filed = tt })

-- Registration: a new id is entered with the secret and no reports, a known id with its own secret
-- is accepted and with another secret refused, both with the store as it was; no other id changes.
pub get-add_agent :
    (s : AgentStore) (id secret j : String) (now : ℕ)
    → (get (add_agent s id secret now).1 j ≡ (
        if str_eq id j
        then elim (get s id) [ some a ↦ some a | none ↦ some (new_agent id secret now) ]
        else get s j))
      × ((add_agent s id secret now).0 ≡ elim (get s id) [
        | some a ↦ if str_eq a.secret secret then ok tt else err (already_exists id)
        | none ↦ ok tt
      ])
unfolding get add_agent
get-add_agent s id secret j now =
    ground (arith, eq_iff id j, lookup-insert id j (new_agent id secret now) s.agents)

-- What a call may leave of an agent: nothing, or the same id and secret.
abbrev pub Keeps : Agent → Option Agent → Type 0
Keeps a none = Unit
Keeps a (some b) = (b.id ≡ a.id) × (b.secret ≡ a.secret)

modify-Keeps :
    (s : AgentStore) (k id : String) (f : Agent → Agent) (a : Agent)
    → ((b : Agent) → ((f b).id ≡ b.id) × ((f b).secret ≡ b.secret))
    → lookup id s.agents ≡ some a
    → Keeps a (lookup id (modify k f s.agents))
modify-Keeps s k id f a same h = ground (arith, same a, lookup-modify k id f s.agents)

-- In a well-formed store no call changes the secret or the id of a registered agent: it removes the agent or keeps both.
pub apply-Keeps :
    (s : AgentStore) (c : ℕ × Call) (id : String) (a : Agent)
    → IsWellFormed s
    → get s id ≡ some a
    → Keeps a (get (apply s c) id)
unfolding get apply add_agent update_last_seen update_config update_health remove_agent
    remove_stale_agents
apply-Keeps s (now, adds j secret) id a w h =
    ground (arith, eq_iff j id, lookup-insert j id (new_agent j secret now) s.agents)
apply-Keeps s (now, sees j) id a w h = modify-Keeps s j id _ a (λ b. (refl, refl)) h
apply-Keeps s (now, configures j config) id a w h = modify-Keeps s j id _ a (λ b. (refl, refl)) h
apply-Keeps s (now, reports j health) id a w h = modify-Keeps s j id _ a (λ b. (refl, refl)) h
apply-Keeps s (now, removes j) id a w h = ground (arith, lookup-remove j id s.agents w.distinct)
apply-Keeps s (now, cleans max_age) id a w h =
    ground (arith, lookup-filter (λ b. not (is_stale max_age now b)) id s.agents w.distinct)
