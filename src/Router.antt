-- ===== src/Router.antt =====
-- src/lib.rs: `create_client_app`, `create_agent_app` and `create_app`. A router is the list of its
-- routes, each with the middlewares around it, the outermost first, as axum's `route`, `layer`,
-- `merge` and `nest` are documented; the layer that traces requests is left out.
pub mod Access
use saimiris_gateway.Prelude.{
  ℕ, String, Bool, true, false, ◌&&◌, Option, none, some, List, [], ◌∷◌, ◌++◌, map, find, str_eq,
  Result, ok, err, ◌>>=◌,
}
use saimiris_gateway.App.{AppState}
use saimiris_gateway.Handlers.Agents.{validate_agent_key}
use saimiris_gateway.Jwt.{AuthInfo, AuthorizationError, into_response}
use saimiris_gateway.Jwt.Keys.{KeyMaker, HttpReply}
use saimiris_gateway.Jwt.Validator.{JsonWebToken}
use saimiris_gateway.Jwt.Cache.{JwksCache}
use saimiris_gateway.Jwt.Middleware.{jwt_middleware}

-- The methods of the routes, HEAD, and any other method of a request.
pub data Method : Type 0 where
  get head post other : Method

-- A part of a path: a text, or a parameter in braces.
pub data Segment : Type 0 where
  fixed param : String → Segment

pub data Operation : Type 0 where
  lists_agents reads_agent reads_config reads_health : Operation
  reads_user reads_prefixes lists_measurements submits_probes reads_status cancels : Operation
  registers updates_config updates_health updates_status : Operation

pub data Middleware : Type 0 where
  user_token agent_key : Middleware

pub record Route : Type 0 where
  pub path : List Segment
  pub method : Method
  pub operation : Operation
  pub layers : List Middleware

abbrev pub Router : Type 0
Router = List Route

abbrev pub route : List Segment → Method → Operation → Route
route path method operation = record {
  path = path;
  method = method;
  operation = operation;
  layers = [];
}

abbrev pub layer : Middleware → Router → Router
layer m routes = map {A = Route} (λ r. record r { layers = m ∷ r.layers }) routes

abbrev pub nest : String → Router → Router
nest prefix routes = map {A = Route} (λ r. record r { path = fixed prefix ∷ r.path }) routes

abbrev pub protected_routes : Router
protected_routes = layer user_token (
    route (fixed "user" ∷ fixed "me" ∷ []) get reads_user
    ∷ route (fixed "user" ∷ fixed "prefixes" ∷ []) get reads_prefixes
    ∷ route (fixed "measurements" ∷ []) get lists_measurements
    ∷ route (fixed "probes" ∷ []) post submits_probes
    ∷ route (fixed "measurement" ∷ param "id" ∷ fixed "status" ∷ []) get reads_status
    ∷ route (fixed "measurement" ∷ param "id" ∷ fixed "cancel" ∷ []) post cancels
    ∷ [])

unfoldable pub create_client_app : Router
create_client_app =
    (route (fixed "agents" ∷ []) get lists_agents
      ∷ route (fixed "agent" ∷ param "id" ∷ []) get reads_agent
      ∷ route (fixed "agent" ∷ param "id" ∷ fixed "config" ∷ []) get reads_config
      ∷ route (fixed "agent" ∷ param "id" ∷ fixed "health" ∷ []) get reads_health
      ∷ [])
    ++ protected_routes

unfoldable pub create_agent_app : Router
create_agent_app = layer agent_key (
    route (fixed "agent" ∷ fixed "register" ∷ []) post registers
    ∷ route (fixed "agent" ∷ param "id" ∷ fixed "config" ∷ []) post updates_config
    ∷ route (fixed "agent" ∷ param "id" ∷ fixed "health" ∷ []) post updates_health
    ∷ route
        (fixed "agent"
          ∷ param "id"
          ∷ fixed "measurement"
          ∷ param "measurement_id"
          ∷ fixed "status"
          ∷ [])
        post updates_status
    ∷ [])

unfoldable pub create_app : Router
create_app = nest "api" create_client_app ++ nest "agent-api" create_agent_app

pub record Request : Type 0 where
  pub method : Method
  pub path : List String
  pub authorization : Option (List ℕ)

-- Whether a route takes a method: one that is made with axum's `get` takes HEAD too.
abbrev pub takes : Method → Method → Bool
takes get get = true
takes get head = true
takes post post = true
takes _ _ = false

abbrev pub path_matches : List Segment → List String → Bool
path_matches [] [] = true
path_matches [] (s ∷ ss) = false
path_matches (p ∷ ps) [] = false
path_matches (fixed t ∷ ps) (s ∷ ss) = str_eq t s && path_matches ps ss
path_matches (param _ ∷ ps) (s ∷ ss) = path_matches ps ss

-- No two routes take the same request.
abbrev pub find_route : Router → Request → Option Route
find_route router request =
    find (λ r. takes r.method request.method && path_matches r.path request.path) router

-- Why a request reaches no operation: axum finds no route for it, and answers itself, or a middleware
-- answers it with a status code.
pub data Refusal : Type 0 where
  unrouted : Refusal
  status : ℕ → Refusal

abbrev pub refused : {A : Type 0} → Result ℕ A → Result Refusal A
refused (ok a) = ok a
refused (err code) = err (status code)

-- The users' middleware at this request, with the key set that it finds; and what it answers to a
-- request that it stops.
module _ {Key E : Type 0} (keys : KeyMaker Key) (jwt : JsonWebToken Key E)
    (others : JwksCache Key → JwksCache Key) (send : String → HttpReply E) (state : AppState)
    (times : ℕ × ℕ × ℕ) (cache : JwksCache Key) where
  abbrev pub status_of : Result (AuthorizationError E) AuthInfo → Result ℕ AuthInfo
  status_of (ok info) = ok info
  status_of (err e) = err (into_response e).0

  -- The extension of the request is the user's information.
  unfoldable pub run_layers :
      Option (List ℕ) → List Middleware → Option AuthInfo → Result ℕ (Option AuthInfo)
  run_layers authorization [] extension = ok extension
  run_layers authorization (user_token ∷ layers) extension =
      status_of (jwt_middleware keys jwt others send state authorization times cache).0 >>= λ info.
      run_layers authorization layers (some info)
  run_layers authorization (agent_key ∷ layers) extension =
      validate_agent_key state.agent_key authorization >>= λ _.
      run_layers authorization layers extension

  abbrev pub reach : Request → Option Route → Result Refusal (Operation × Option AuthInfo)
  reach request none = err unrouted
  reach request (some r) = refused (run_layers request.authorization r.layers none) >>= λ extension.
      ok (r.operation, extension)

  -- The operation that a request reaches and what it is told of the user.
  unfoldable pub serve : Request → Result Refusal (Operation × Option AuthInfo)
  serve request = reach request (find_route create_app request)
