-- ===== src/Handlers/Agents/Registration.antt =====
-- What a registration over the API is answered with.
use saimiris_gateway.Prelude.{
  ℕ, String, some, List, [], ◌∷◌, ◌≡◌, refl, sym, subst, ◌∙◌, ◌≢◌, inl, inr, All, arith, str_eq,
  eq_iff, eq_refl, Result, ok, err, Option-cases, Bool-cases, Result-cases,
}
use saimiris_gateway.Prelude.Map.{modify, lookup-modify, All-lookup}
use saimiris_gateway.Http.{Failure, responds, conflict}
use saimiris_gateway.Agent.{
  Agent, AgentStore, StoreError, get, new_agent, add_agent, update_last_seen, update_config,
  update_health, Call, adds, sees, configures, reports, removes, cleans, apply, run,
}
use saimiris_gateway.Agent.Invariant.{IsWellFormed, Filed, get-add_agent}
use saimiris_gateway.Handlers.Agents.{RegisterAgentRequest, register_agent}

-- A call that takes no agent away.
abbrev pub IsKeeping : ℕ × Call → Type 0
IsKeeping (now, removes id) = ⊥
IsKeeping (now, cleans max_age) = ⊥
IsKeeping (now, _) = Unit

-- An agent is in the store with this id and secret.
abbrev pub IsThere : AgentStore → String → String → String → Type 0
IsThere s key id secret = (a : Agent) × (get s key ≡ some a) × (a.id ≡ id) × (a.secret ≡ secret)

modify-IsThere :
    (s : AgentStore) (k key id secret : String) (f : Agent → Agent)
    → ((b : Agent) → ((f b).id ≡ b.id) × ((f b).secret ≡ b.secret))
    → IsThere s key id secret
    → IsThere (record { agents = modify k f s.agents }) key id secret
unfolding get
modify-IsThere s k key id secret f same (a, h, i, j) = elim (Bool-cases (str_eq k key)) [
  | inl e ↦ (f a, ground (arith, lookup-modify k key f s.agents), (same a).0 ∙ i, (same a).1 ∙ j)
  | inr e ↦ (a, ground (arith, lookup-modify k key f s.agents), i, j)
]

apply-IsThere :
    (s : AgentStore) (c : ℕ × Call) (key id secret : String)
    → IsKeeping c
    → IsThere s key id secret
    → IsThere (apply s c) key id secret
unfolding apply update_last_seen update_config update_health
apply-IsThere s (now, adds k sec) key id secret p (a, h, i, j) =
    (a, (get-add_agent s k sec key now).0 ∙ ground (arith, eq_iff k key), i, j)
apply-IsThere s (now, sees k) key id secret p t =
    modify-IsThere s k key id secret _ (λ b. (refl, refl)) t
apply-IsThere s (now, configures k config) key id secret p t =
    modify-IsThere s k key id secret _ (λ b. (refl, refl)) t
apply-IsThere s (now, reports k health) key id secret p t =
    modify-IsThere s k key id secret _ (λ b. (refl, refl)) t
apply-IsThere s (now, removes k) key id secret p t = absurd p
apply-IsThere s (now, cleans max_age) key id secret p t = absurd p

run-IsThere :
    (s : AgentStore) (cs : List (ℕ × Call)) (key id secret : String)
    → All IsKeeping cs
    → IsThere s key id secret
    → IsThere (run s cs) key id secret
unfolding run
run-IsThere s [] key id secret p t = t
run-IsThere s (c ∷ cs) key id secret (p, ps) t =
    run-IsThere (apply s c) cs key id secret ps (apply-IsThere s c key id secret p t)

added-IsThere :
    (s : AgentStore) (id secret : String) (now : ℕ)
    → IsWellFormed s
    → (add_agent s id secret now).0 ≡ ok tt
    → IsThere (add_agent s id secret now).1 id id secret
unfolding get new_agent
added-IsThere s id secret now w h =
    let (found, answer) = get-add_agent s id secret id now in
    elim (Option-cases (get s id)) [
      | inl e ↦ (new_agent id secret now, found ∙ ground (arith, eq_refl id), refl, refl)
      | inr (a, e) ↦ (
        a,
        found ∙ ground (arith, eq_refl id),
        sym (All-lookup Filed id a s.agents w.filed e),
        ground (arith, eq_iff a.secret secret),
      )
    ]

refused-IsThere :
    (s : AgentStore) (id secret : String) (now : ℕ) (e : StoreError)
    → (add_agent s id secret now).0 ≡ err e
    → (a : Agent) × (get s id ≡ some a) × (a.secret ≢ secret)
refused-IsThere s id secret now x h =
    let (_, answer) = get-add_agent s id secret id now in
    elim (Option-cases (get s id)) [
      | inl e ↦ absurd (ground arith)
      | inr (a, e) ↦ (a, e, λ same. ground (arith, eq_iff a.secret secret))
    ]

-- What a registration is answered with.
abbrev pub Registered :
    AgentStore → RegisterAgentRequest → Result (Failure (Unit {0})) Agent → Type 0
Registered s payload (ok a) = (a.id ≡ payload.id) × (a.secret ≡ payload.secret)
Registered s payload (err x) =
    (x ≡ responds conflict tt)
    × ((a : Agent) × (get s payload.id ≡ some a) × (a.secret ≢ payload.secret))

-- A registration, in a store that calls can lead to, is answered with an agent of the id and the
-- secret given, or with 409 when the id is taken under another secret. It does not panic as long as
-- the other requests that come in before the agent is read again remove no agent.
pub register_agent-Registered :
    (s : AgentStore) (payload : RegisterAgentRequest) (now : ℕ) (cs : List (ℕ × Call))
    → IsWellFormed s
    → All IsKeeping cs
    → Registered s payload (register_agent (λ t. run t cs) payload now s).0
unfolding register_agent
register_agent-Registered s payload now cs w keeping =
    elim (Result-cases (add_agent s payload.id payload.secret now).0) [
      | inl (u, e) ↦
          let (a, h, i, j) =
            run-IsThere (add_agent s payload.id payload.secret now).1 cs payload.id payload.id
              payload.secret keeping (added-IsThere s payload.id payload.secret now w e) in
          let answer : (register_agent (λ t. run t cs) payload now s).0 ≡ ok a = ground arith in
          subst (Registered s payload) (sym answer) (i, j)
      | inr (x, e) ↦
          let answer : (register_agent (λ t. run t cs) payload now s).0
              ≡ err (responds conflict tt) =
            ground arith in
          subst (Registered s payload) (sym answer)
            (refl, refused-IsThere s payload.id payload.secret now x e)
    ]
