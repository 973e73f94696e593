-- ===== src/Examples/Agents.antt =====
-- The agent store and its handlers at concrete inputs.
use saimiris_gateway.Prelude.{
  ℕ, String, Bool, true, false, not, Option, none, some, List, [], ◌∷◌, ◌++◌, ◌≡◌, refl, ◌↔◌, All,
  Result, ok, err, codes, is_empty, if◌then◌else◌, str_eq,
}
use saimiris_gateway.Prelude.Int.{pos}
use saimiris_gateway.Agent.Abstract.{view, promised_run, run-promised_run}
use saimiris_gateway.Agent.{new_store, get, remove_stale_agents, Call, adds, reports, cleans, run}
use saimiris_gateway.Agent.Invariant.{IsWellFormed, run-new_store-IsWellFormed}
use saimiris_gateway.Agent.Freshness.{get-remove_stale_agents}
use saimiris_gateway.Handlers.Agents.{register_agent}
use saimiris_gateway.Handlers.Agents.Registration.{Registered, register_agent-Registered}
use saimiris_gateway.Examples.Parameters.{health, alpha, store}

abbrev calls : List (ℕ × Call)
calls =
    (40, adds "alpha" "s3cret")
    ∷ (41, adds "beta" "other")
    ∷ (50, reports "alpha" health)
    ∷ (51, cleans (pos 60))
    ∷ []

run-new_store-IsWellFormed_example : IsWellFormed (run new_store calls)
run-new_store-IsWellFormed_example = run-new_store-IsWellFormed calls

store-IsWellFormed : IsWellFormed store
store-IsWellFormed = record { distinct = (tt, tt); filed = (refl, tt) }

get-remove_stale_agents_example :
    get (remove_stale_agents store (pos 60) 100).1 "alpha" ≡ some alpha
unfolding get saimiris_gateway.Prelude.Map.lookup
get-remove_stale_agents_example =
    get-remove_stale_agents store (pos 60) 100 "alpha" store-IsWellFormed

register_agent-Registered_example :
    Registered store
      (record { id = "beta"; secret = "other" })
      (register_agent
        (λ t. run t ((61, adds "gamma" "third") ∷ []))
        (record { id = "beta"; secret = "other" })
        60
        store).0
register_agent-Registered_example =
    register_agent-Registered store (record { id = "beta"; secret = "other" }) 60
      ((61, adds "gamma" "third") ∷ []) store-IsWellFormed (tt, tt)

run-promised_run_example : view (run new_store calls) ≡ promised_run (λ _. none) calls
run-promised_run_example = run-promised_run calls
