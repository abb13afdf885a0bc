-- ===== src/Routes/Router.antt =====
-- routes/router.go: the routes of the service with the middleware of their groups. azugo's route groups
-- are an argument.
pub mod Guards
pub mod Gate
use eudi_api_management.Base.{String, List, [], ◌∷◌, ◌++◌, ◌≡◌}
use eudi_api_management.Text.{append}
use eudi_api_management.Config.{Configuration}
use eudi_api_management.Routes.RateLimits.{Limiter, session_key_limiter, session_ip_limiter}

pub data Middleware : Type 0 where
  authenticate : Middleware
  limit_client limit_ip : Limiter → Middleware

pub data Handler : Type 0 where
  healthz readyz create_session get_session cancel_session : Handler
  list_templates create_template get_template delete_template : Handler

-- A route that is registered on a group.
pub record Route : Type 0 where
  pub method : String
  pub path : String
  pub chain : List Middleware
  pub handler : Handler

-- azugo.Router: a group with its path and its chain of middleware
pub record Framework (G : Type 0) : Type 0 where
  pub root : G
  pub group : String → G → G
  pub with_middleware : List Middleware → G → G
  pub path : G → String
  pub chain : G → List Middleware

-- What the program relies on: a group copies the chain of its parent and extends its path, `Use`
-- appends to the chain, and the application itself has no chain.
pub record Documented {G : Type 0} (fw : Framework G) : Type 0 where
  pub root_path : fw.path fw.root ≡ ""
  pub root_chain : fw.chain fw.root ≡ []
  pub group_path : (p : String) (g : G) → fw.path (fw.group p g) ≡ append (fw.path g) p
  pub group_chain : (p : String) (g : G) → fw.chain (fw.group p g) ≡ fw.chain g
  pub middleware_path :
      (ms : List Middleware) (g : G) → fw.path (fw.with_middleware ms g) ≡ fw.path g
  pub middleware_chain :
      (ms : List Middleware) (g : G) → fw.chain (fw.with_middleware ms g) ≡ fw.chain g ++ ms

module _ {G : Type 0} (fw : Framework G) (cfg : Configuration) where
  abbrev bound : String → String → Handler → G → Route
  bound method p handler g = record {
    method = method;
    path = append (fw.path g) p;
    chain = fw.chain g;
    handler = handler;
  }

  -- router.v1
  abbrev pub v1 : G
  v1 = fw.with_middleware (authenticate ∷ []) (fw.group "/api/v1" fw.root)

  -- sessionCreate
  abbrev pub session_create : G
  session_create =
      fw.with_middleware
        (limit_client (session_key_limiter cfg) ∷ limit_ip (session_ip_limiter cfg) ∷ [])
        (fw.group "/sessions" v1)

  -- newRouter
  unfoldable pub new_router : List Route
  new_router =
      bound "GET" "/healthz" healthz fw.root
      ∷ bound "GET" "/readyz" readyz fw.root
      ∷ bound "POST" "" create_session session_create
      ∷ bound "GET" "/sessions/{sessionId}" get_session v1
      ∷ bound "DELETE" "/sessions/{sessionId}" cancel_session v1
      ∷ bound "GET" "/templates" list_templates v1
      ∷ bound "POST" "/templates" create_template v1
      ∷ bound "GET" "/templates/{templateId}" get_template v1
      ∷ bound "DELETE" "/templates/{templateId}" delete_template v1
      ∷ []
