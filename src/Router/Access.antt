-- ===== src/Router/Access.antt =====
-- Who reaches which operation.
use saimiris_gateway.Prelude.{
  ℕ, String, Bool, Option, none, some, List, [], ◌∷◌, find, ◌≡◌, refl, subst, ◌↔◌, ap, sym, ◌∙◌,
  arith, All, Result, ok, err, >>=-eq-ok, Option-cases, inl, inr, Bool-cases,
}
use saimiris_gateway.App.{AppState}
use saimiris_gateway.Handlers.Agents.{validate_agent_key}
use saimiris_gateway.Jwt.{AuthInfo, AuthorizationError}
use saimiris_gateway.Jwt.Keys.{KeyMaker, HttpReply}
use saimiris_gateway.Jwt.Validator.{JsonWebToken}
use saimiris_gateway.Jwt.Cache.{JwksCache}
use saimiris_gateway.Jwt.Middleware.{jwt_middleware}
use saimiris_gateway.Router.{
  refused, Operation, lists_agents, reads_agent, reads_config, reads_health, reads_user,
  reads_prefixes, lists_measurements, submits_probes, reads_status, cancels, registers,
  updates_config, updates_health, updates_status, Middleware, user_token, agent_key, Route,
  create_client_app, create_agent_app, create_app, Request, find_route, status_of, run_layers,
  reach, serve,
}

-- Reading about agents is for all, a user's business for this user, an agent's reports for agents.
pub data Audience : Type 0 where
  anyone users agents : Audience

abbrev pub audience : Operation → Audience
audience lists_agents = anyone
audience reads_agent = anyone
audience reads_config = anyone
audience reads_health = anyone
audience reads_user = users
audience reads_prefixes = users
audience lists_measurements = users
audience submits_probes = users
audience reads_status = users
audience cancels = users
audience registers = agents
audience updates_config = agents
audience updates_health = agents
audience updates_status = agents

abbrev layers_for : Audience → List Middleware
layers_for anyone = []
layers_for users = user_token ∷ []
layers_for agents = agent_key ∷ []

create_app-All : All (λ r. r.layers ≡ layers_for (audience r.operation)) create_app
unfolding create_app create_client_app create_agent_app
create_app-All = (
  refl,
  (
    refl,
    (
      refl,
      (refl, (refl, (refl, (refl, (refl, (refl, (refl, (refl, (refl, (refl, (refl, tt))))))))))),
    ),
  ),
)

find-All :
    {A : Type 0} (P : A → Type 0) (p : A → Bool) (xs : List A) (x : A)
    → All P xs
    → find p xs ≡ some x
    → P x
find-All P p [] x h e = absurd cc
find-All P p (y ∷ ys) x (h, hs) e = elim (Bool-cases (p y)) [
  | inl k ↦ let same : y ≡ x = ground arith in rw (sym same) h
  | inr k ↦ find-All P p ys x hs (ground arith)
]

refused_ok : {A : Type 0} (r : Result ℕ A) (a : A) → refused r ≡ ok a → r ≡ ok a
refused_ok (ok b) a h = cc
refused_ok (err code) a h = absurd cc

module _ {Key E : Type 0} (keys : KeyMaker Key) (jwt : JsonWebToken Key E)
    (others : JwksCache Key → JwksCache Key) (send : String → HttpReply E) (state : AppState)
    (times : ℕ × ℕ × ℕ) (cache : JwksCache Key) where
  -- What stands behind a request that reaches an operation for an audience.
  abbrev pub Allowed : Audience → Request → Option AuthInfo → Type 0
  Allowed anyone request extension = extension ≡ none
  Allowed users request extension =
      (info : AuthInfo) × (extension ≡ some info)
      × ((jwt_middleware keys jwt others send state request.authorization times cache).0 ≡ ok info)
  Allowed agents request extension =
      (validate_agent_key state.agent_key request.authorization ≡ ok tt) × (extension ≡ none)

  abbrev run : Request → List Middleware → Result ℕ (Option AuthInfo)
  run request layers =
      run_layers keys jwt others send state times cache request.authorization layers none

  status_of_ok :
      (r : Result (AuthorizationError E) AuthInfo) (info : AuthInfo)
      → status_of keys jwt others send state times cache r ≡ ok info
      → r ≡ ok info
  status_of_ok (ok i) info h = cc
  status_of_ok (err e) info h = absurd cc

  run-Allowed :
      (a : Audience) (request : Request) (extension : Option AuthInfo)
      → run request (layers_for a) ≡ ok extension
      → Allowed a request extension
  unfolding run_layers
  run-Allowed anyone request extension h = cc
  run-Allowed users request extension h =
      let (info, h1, k1) =
        >>=-eq-ok
          (status_of keys jwt others send state times cache
            (jwt_middleware keys jwt others send state request.authorization times cache).0)
          _ h in
      (info, cc, status_of_ok _ info h1)
  run-Allowed agents request extension h =
      let (_, h1, k1) = >>=-eq-ok (validate_agent_key state.agent_key request.authorization) _ h in
      (h1, cc)

  Allowed-run :
      (a : Audience) (request : Request) (extension : Option AuthInfo)
      → Allowed a request extension
      → run request (layers_for a) ≡ ok extension
  unfolding run_layers
  Allowed-run anyone request extension h = ap ok (sym h)
  Allowed-run users request extension (info, told, h) = rw (h, told) refl
  Allowed-run agents request extension (h, told) = rw (h, told) refl

  runs :
      (request : Request) (r : Route) (extension : Option AuthInfo)
      → r.layers ≡ layers_for (audience r.operation)
      → run request r.layers ≡ ok extension
      → run request (layers_for (audience r.operation)) ≡ ok extension
  runs request r extension e h = ap (run request) (sym e) ∙ h

  served :
      (request : Request) (r : Route)
      → find_route create_app request ≡ some r
      → reach keys jwt others send state times cache request (some r)
        ≡ serve keys jwt others send state times cache request
  unfolding serve
  served request r e = ap (reach keys jwt others send state times cache request) (sym e)

  unserved :
      (request : Request) (operation : Operation) (extension : Option AuthInfo)
      → find_route create_app request ≡ none
      → serve keys jwt others send state times cache request ≡ ok (operation, extension)
      → ⊥
  unfolding serve
  unserved request operation extension e h =
      let lost : reach keys jwt others send state times cache request none
          ≡ serve keys jwt others send state times cache request =
        ap (reach keys jwt others send state times cache request) (sym e) in
      cc

  reached :
      (request : Request) (r : Route) (extension : Option AuthInfo)
      → find_route create_app request ≡ some r
      → Allowed (audience r.operation) request extension
      → serve keys jwt others send state times cache request ≡ ok (r.operation, extension)
  reached request r extension e h =
      let layers = find-All _ _ create_app r create_app-All e in
      let passes : run request r.layers ≡ ok extension =
        ap (run request) layers ∙ Allowed-run (audience r.operation) request extension h in
      sym (served request r e) ∙ rw passes refl

  found :
      (request : Request) (operation : Operation) (extension : Option AuthInfo)
      → serve keys jwt others send state times cache request ≡ ok (operation, extension)
      → (r : Route) × (find_route create_app request ≡ some r)
        × (r.operation ≡ operation)
        × Allowed (audience operation) request extension
  found request operation extension h = elim (Option-cases (find_route create_app request)) [
    | inl e ↦ absurd (unserved request operation extension e h)
    | inr (r, e) ↦
        let layered =
          run_layers keys jwt others send state times cache request.authorization r.layers none in
        let (extension', h0, k1) = >>=-eq-ok (refused layered) _ (served request r e ∙ h) in
        let h1 = refused_ok layered extension' h0 in
        let layers = find-All _ _ create_app r create_app-All e in
        let same : r.operation ≡ operation = cc in
        let told : extension' ≡ extension = cc in
        (
          r,
          e,
          same,
          rw (sym same, sym told)
              (run-Allowed (audience r.operation) request extension'
                (runs request r extension' layers h1)),
        )
  ]

  -- A request reaches an operation exactly if its path is that of the operation's route, its method
  -- is the route's, or HEAD where that is GET, and it may: anyone may read about agents and is told of no user, an operation of the users
  -- takes the information that their middleware finds in the token, and one of the agents the check
  -- of the agent key.
  pub serve-Allowed :
      (request : Request) (operation : Operation) (extension : Option AuthInfo)
      → (serve keys jwt others send state times cache request ≡ ok (operation, extension)) ↔ (
          (r : Route) × (find_route create_app request ≡ some r)
          × (r.operation ≡ operation)
          × Allowed (audience operation) request extension)
  serve-Allowed request operation extension = (
    found request operation extension,
    λ h.
        let (r, e, same, allowed) = h in
        subst
          (λ (o : Operation).
            serve keys jwt others send state times cache request ≡ ok (o, extension))
          same
          (reached request r extension e
            (subst (λ (o : Operation). Allowed (audience o) request extension) (sym same) allowed)),
  )
