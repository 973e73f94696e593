-- ===== src/Handlers/Agents/Reports.antt =====
-- Who may call the agents' API, and what it makes of a health report.
use saimiris_gateway.Prelude.{
  ℕ, String, true, Option, none, some, List, [], ◌∷◌, ◌++◌, ◌≡◌, refl, ap, ◌∙◌, ◌↔◌, inl, inr,
  arith, eq_refl, ==_iff, ok, err, Option-cases, Bool-cases, codes, codes_eq, codes_eq→eq,
}
use saimiris_gateway.Prelude.Map.{lookup-modify}
use saimiris_gateway.Http.{responds, not_found}
use saimiris_gateway.Agent.{Agent, HealthStatus, AgentStore, get, update_health}
use saimiris_gateway.Handlers.Agents.{
  bearer, strip_prefix, validate_agent_key, get_agent_health, update_agent_health,
}

strip_prefix-some : (p s t : List ℕ) → strip_prefix p s ≡ some t → s ≡ p ++ t
strip_prefix-some [] s t h = cc
strip_prefix-some (c ∷ p) [] t h = absurd cc
strip_prefix-some (c ∷ p) (d ∷ s) t h = ground (arith, strip_prefix-some p s t, ==_iff c d)

codes_eq_refl : (xs : List ℕ) → codes_eq xs xs ≡ true
codes_eq_refl [] = refl
codes_eq_refl (x ∷ xs) = ground (arith, codes_eq_refl xs)

-- A call of the agents' API passes exactly if its authorization header is there and is `Bearer `
-- followed by the agent key.
pub validate_agent_key_iff :
    (agent_key : String) (authorization : Option (List ℕ))
    → (validate_agent_key agent_key authorization ≡ ok tt)
      ↔ (authorization ≡ some (bearer ++ codes agent_key))
unfolding validate_agent_key
validate_agent_key_iff agent_key none = (λ h. absurd cc, λ h. absurd cc)
validate_agent_key_iff agent_key (some a) = (
  λ h. elim (Option-cases (strip_prefix bearer a)) [
    | inl e ↦ absurd (ground arith)
    | inr (k, e) ↦ elim (Bool-cases (codes_eq k (codes agent_key))) [
      | inl same ↦ ap some (
          strip_prefix-some bearer a k e
          ∙ ap (λ l. bearer ++ l) (codes_eq→eq k (codes agent_key) same))
      | inr other ↦ absurd (ground arith)
    ]
  ],
  λ h. let same : a ≡ bearer ++ codes agent_key = cc in rw (same, codes_eq_refl (codes agent_key)),
)

-- An agent's health report that comes in while the agent is registered, and stays so until the
-- report is stored, is answered with the report, and is what the agent's health then is. A report
-- for an id that is not registered is answered with 404 and changes nothing.
pub update_agent_health-get_agent_health :
    (others : AgentStore → AgentStore) (s : AgentStore) (id : String) (health : HealthStatus)
    (now : ℕ)
    → ((a b : Agent)
        → get s id ≡ some a
        → get (others s) id ≡ some b
        → ((update_agent_health others id health now s).0 ≡ ok health)
          × ((get_agent_health id (update_agent_health others id health now s).1).0 ≡ ok health))
      × (get s id ≡ none
          → update_agent_health others id health now s ≡ (err (responds not_found tt), s))
unfolding update_agent_health get_agent_health update_health get
update_agent_health-get_agent_health others s id health now = (
  λ a b h k. (
    ground arith,
    ground (
      arith,
      eq_refl id,
      lookup-modify id id (λ x. record x { health = some health; last_seen = now })
          (others s).agents,
    ),
  ),
  λ h. ground arith,
)
