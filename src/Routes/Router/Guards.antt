-- ===== src/Routes/Router/Guards.antt =====
-- Which routes stand behind which middleware.
use eudi_api_management.Base.{String, ◌≡◌, ◌∙◌, ap, List, [], ◌∷◌, ◌++◌}
use eudi_api_management.Text.{append}
use eudi_api_management.Config.{Configuration}
use eudi_api_management.Routes.RateLimits.{session_key_limiter, session_ip_limiter}
use eudi_api_management.Routes.Router.{
  Middleware, authenticate, limit_client, limit_ip, Handler, healthz, readyz, create_session,
  get_session, cancel_session, list_templates, create_template, get_template, delete_template,
  Route, Framework, Documented, v1, session_create, new_router,
}

-- The middleware that a handler is meant to stand behind.
abbrev pub chain_of : Configuration → Handler → List Middleware
chain_of cfg healthz = []
chain_of cfg readyz = []
chain_of cfg create_session =
    authenticate ∷ limit_client (session_key_limiter cfg) ∷ limit_ip (session_ip_limiter cfg) ∷ []
chain_of cfg _ = authenticate ∷ []

-- where it is served
abbrev path_of : Handler → String
path_of healthz = "/healthz"
path_of readyz = "/readyz"
path_of create_session = "/api/v1/sessions"
path_of get_session = "/api/v1/sessions/{sessionId}"
path_of cancel_session = "/api/v1/sessions/{sessionId}"
path_of list_templates = "/api/v1/templates"
path_of create_template = "/api/v1/templates"
path_of get_template = "/api/v1/templates/{templateId}"
path_of delete_template = "/api/v1/templates/{templateId}"

abbrev method_of : Handler → String
method_of create_session = "POST"
method_of cancel_session = "DELETE"
method_of create_template = "POST"
method_of delete_template = "DELETE"
method_of _ = "GET"

abbrev pub handlers : List Handler
handlers =
    healthz ∷ readyz ∷ create_session ∷ get_session ∷ cancel_session ∷ list_templates
    ∷ create_template ∷ get_template ∷ delete_template ∷ []

abbrev route_of : Configuration → Handler → Route
route_of cfg h = record {
  method = method_of h;
  path = path_of h;
  chain = chain_of cfg h;
  handler = h;
}

abbrev pub routes_of : Configuration → List Handler → List Route
routes_of cfg [] = []
routes_of cfg (h ∷ hs) = route_of cfg h ∷ routes_of cfg hs

module _ {G : Type 0} (fw : Framework G) (documented : Documented fw) (cfg : Configuration) where
  v1_path : fw.path (v1 fw cfg) ≡ "/api/v1"
  v1_path =
      documented.middleware_path (authenticate ∷ []) _
      ∙ documented.group_path "/api/v1" fw.root
      ∙ ap (λ p. append p "/api/v1") documented.root_path

  v1_chain : fw.chain (v1 fw cfg) ≡ authenticate ∷ []
  v1_chain =
      documented.middleware_chain (authenticate ∷ []) _
      ∙ ap (λ ms. ms ++ (authenticate ∷ []))
          (documented.group_chain "/api/v1" fw.root ∙ documented.root_chain)

  create_path : fw.path (session_create fw cfg) ≡ "/api/v1/sessions"
  create_path =
      documented.middleware_path _ _
      ∙ documented.group_path "/sessions" _
      ∙ ap (λ p. append p "/sessions") v1_path

  create_chain : fw.chain (session_create fw cfg) ≡ chain_of cfg create_session
  create_chain =
      documented.middleware_chain _ _
      ∙ ap
          (λ ms.
            ms ++ (limit_client (session_key_limiter cfg) ∷ limit_ip (session_ip_limiter cfg) ∷ []))
          (documented.group_chain "/sessions" _ ∙ v1_chain)

  -- Where route groups behave as documented, the service has one route for each handler, at its
  -- method and path: the two probes without middleware, session creation behind the API-key
  -- boundary, the limiter per client and the limiter per address, in that order, and all else behind
  -- the API-key boundary alone.
  pub new_router-routes : new_router fw cfg ≡ routes_of cfg handlers
  unfolding new_router
  new_router-routes =
      simp
        (v1_path, v1_chain, create_path, create_chain, documented.root_path, documented.root_chain)
