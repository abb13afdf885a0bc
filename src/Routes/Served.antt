-- ===== src/Routes/Served.antt =====
-- routes/: whole requests of three routes, from the middleware of the route to the handler, for a body
-- that decodes. The outside of the handlers is an argument.
pub mod EndToEnd
pub mod Foreign
pub mod Cancelled
use eudi_api_management.Base.{ℕ, ◌/◌, String, Option, none, some, List, [], ◌∷◌}
use eudi_api_management.Base.Results.{Result, ok, err}
use eudi_api_management.Errors.{Error}
use eudi_api_management.Config.{Configuration, second}
use eudi_api_management.Wire.{Codec, Keys}
use eudi_api_management.Scope.{Dcql}
use eudi_api_management.SessionDb.{Store}
use eudi_api_management.Valkey.{Faults}
use eudi_api_management.Verifier.{Engine, Request}
use eudi_api_management.Routes.Web.{Net}
use eudi_api_management.Routes.Prepare.{SessionRequest}
use eudi_api_management.Routes.Create.{Creation, handle_create}
use eudi_api_management.Routes.Poll.{SessionView, Stores, get_session, cancel_session}
use eudi_api_management.Routes.RateLimits.{client_text}
use eudi_api_management.Routes.Router.{
  Middleware, Handler, create_session, Route, Framework, new_router,
}
use eudi_api_management.Routes.Router
use eudi_api_management.Routes.Router.Gate.{Caller, Memory, Outside, pass}

Handler-discrete : Discrete Handler
Handler-discrete = hlevel

-- the middleware of the route that is registered for a handler
unfoldable pub chain_for : Handler → List Route → List Middleware
unfolding Handler-discrete
chain_for h [] = []
chain_for h (r ∷ rs) = elim (Handler-discrete r.handler h) [
  | yes _ ↦ r.chain
  | no _ ↦ chain_for h rs
]

-- What the handlers are given: the middleware's outside, net/url, go-dcql, the engine with its token,
-- the store, the codec and the keys of the results, and the calls of the cache that fail.
pub record Service (L S Q : Type 0) : Type 0 where
  pub outside : Outside L
  pub net : Net
  pub dcql : Dcql Q
  pub engine : Engine
  pub token : String
  pub store : Store S
  pub codec : Codec
  pub keys : Keys
  pub faults : Faults

module _ {G L S Q : Type 0} (fw : Framework G) (cfg : Configuration) (service : Service L S Q)
    (caller : Caller) (now : ℕ) where
  -- the middleware of a handler's route
  unfoldable pub enter : Handler → Memory L → Result Error (Option String) × Memory L
  unfolding new_router chain_for
  enter handler = pass service.outside caller now (chain_for handler (new_router fw cfg)) none

  abbrev pub no_creation : Error → Creation
  no_creation f = record { reply = err f; sent = none; scope_denials = 0; created_flows = [] }

  abbrev pub create_as :
      String
      → String
      → SessionRequest
      → Result Error (Option String) × Memory L
      → Creation × Memory L
  create_as correlation_id inbound_id body (err f, m) = (no_creation f, m)
  create_as correlation_id inbound_id body (ok client, m) = (
    handle_create service.net service.outside.registry (client_text client) service.dcql
        correlation_id (cfg.session_default_ttl / second) service.engine service.token inbound_id
        body,
    m,
  )

  -- POST /api/v1/sessions
  unfoldable pub serve_create : String → String → SessionRequest → Memory L → Creation × Memory L
  serve_create correlation_id inbound_id body m =
      create_as correlation_id inbound_id body (enter create_session m)

  abbrev pub poll_as :
      String
      → Option String
      → Stores S
      → Result Error (Option String) × Memory L
      → (Result Error SessionView × Stores S) × Memory L
  poll_as id code w (err f, m) = ((err f, w), m)
  poll_as id code w (ok client, m) = (
    get_session service.store service.codec service.keys service.faults now (client_text client) id
        code w,
    m,
  )

  -- GET /api/v1/sessions/{sessionId}
  unfoldable pub serve_poll :
      String
      → Option String
      → Stores S
      → Memory L
      → (Result Error SessionView × Stores S) × Memory L
  serve_poll id code w m = poll_as id code w (enter Router.get_session m)

  abbrev pub cancel_as :
      String
      → String
      → S
      → Result Error (Option String) × Memory L
      → ((Result Error Unit × S) × Option Request) × Memory L
  cancel_as correlation_id id db (err f, m) = (((err f, db), none), m)
  cancel_as correlation_id id db (ok client, m) = (
    cancel_session service.store service.codec service.keys service.faults now service.engine
        service.token correlation_id (client_text client) id db,
    m,
  )

  -- DELETE /api/v1/sessions/{sessionId}
  unfoldable pub serve_cancel :
      String → String → S → Memory L → ((Result Error Unit × S) × Option Request) × Memory L
  serve_cancel correlation_id id db m =
      cancel_as correlation_id id db (enter Router.cancel_session m)
