-- ===== src/Routes/Prepare.antt =====
-- routes/sessions.go: `createSession` up to the call of the engine. The engine and go-dcql are arguments.
pub mod Accepted
pub mod Passed
pub mod Authorized
use eudi_api_management.Base.{
  ℕ, ◌/◌, String, Bool, true, false, ◌&&◌, ◌||◌, not, Option, none, some, List, [], ◌∷◌, ◌==◌, ltb,
  nat_eq, if◌then◌else◌, length, all, any,
}
use eudi_api_management.Base.Results.{Result, ok, err, ◌>>=◌, or_fail}
use eudi_api_management.Base.Dict.{Dict}
use eudi_api_management.Text.{append}
use eudi_api_management.Routes.Web.{
  Url, Net, RefFault, registration_ref_fault, Refusal, plain, scope_denied, error_of, refuse, lift,
  require, is_web_origin, origin_allowed, scope_refusal, origin_fault,
}
use eudi_api_management.Errors.{Error, new_problem, detailed_problem, bad_request, param_invalid}
use eudi_api_management.Registry.{Client, IntendedUse, Template, Reads}
use eudi_api_management.Scope.{
  Dcql, ScopeFailure, unparsable, invalid, exceeded, failed, check_within_scope,
}
use eudi_api_management.Wire.Flows.{flow_to_db, flow_from_db}
use eudi_api_management.Verifier.{
  RegistrationRef, CreateRequest, CreateResponse, Engine, Exchange, Request, unavailable,
  create_session,
}

-- api.SessionRequest; a query is the entries of its map, 0 is an absent ttl. A negative ttl is refused
-- by the same test as one below 60; transactionData is not read.
pub record SessionRequest : Type 0 where
  pub flow : String
  pub template_id : String
  pub dcql_query : Dict String
  pub intended_use_id : String
  pub webhook_url : String
  pub redirect_uri : String
  pub ttl_seconds : ℕ

-- the presentation and the intended use that a request comes down to
pub record Target : Type 0 where
  pub raw_query : String
  pub intended_use_id : String

abbrev of_template : Template → Target
of_template t = record { raw_query = t.dcql_query; intended_use_id = t.intended_use_id }

-- exactly one registered intended use
abbrev only_use : List IntendedUse → Result Refusal String
only_use (iu ∷ []) = ok iu.intended_use_id
only_use _ = refuse (
    detailed_problem "err:client:intendedUseRequired"
      "intendedUseId is required when the client has more than one registered intended use (ARF TS5)")

abbrev is_empty : List String → Bool
is_empty [] = true
is_empty (x ∷ xs) = false

-- `!= 0 && (< 60 || > 3600)` does not hold
unfoldable pub is_ttl_valid : ℕ → Bool
is_ttl_valid ttl = nat_eq ttl 0 || not (ltb ttl 60) && not (ltb 3600 ttl)

abbrev has_inline : Dict String → Bool
has_inline [] = false
has_inline (entry ∷ entries) = true

module _ (net : Net) (registry : Reads) (client_id : String) where
  abbrev resolve_use : String → Result Refusal String
  resolve_use id =
      if id == "" then lift (registry.list_intended_uses client_id) >>= only_use else ok id

  abbrev inline_target : SessionRequest → Result Refusal Target
  inline_target req = do
    raw ← or_fail (net.encode_query req.dcql_query) (plain (bad_request "invalid dcqlQuery"))
    id ← resolve_use req.intended_use_id
    ok (record { raw_query = raw; intended_use_id = id })

  abbrev template_target : String → Result Refusal Target
  template_target id = do tpl ← lift (registry.get_template client_id id); ok (of_template tpl)

  -- the query and the intended use, of a template or of the request
  unfoldable pub resolve_target : SessionRequest → Result Refusal Target
  resolve_target req =
      if req.template_id == "" then inline_target req else template_target req.template_id

  abbrev unusable_origin : String → Error
  unusable_origin o = detailed_problem "err:client:originNotRegistered" (
      append "client has a registered origin that is not usable: " (
        append (net.quote o)
          " must be https://host[:port] with no path, query, fragment or userinfo"))

  -- the first stored origin that is no web origin is named
  unfoldable pub check_each : List String → Result Refusal Unit
  unfolding is_web_origin
  check_each [] = ok tt
  check_each (o ∷ os) = do usable ← require (is_web_origin net o) (unusable_origin o); check_each os

  abbrev check_all : List String → Result Refusal Unit
  check_all origins = do
    some_origin ← require (not (is_empty origins)) (
        detailed_problem "err:client:originNotRegistered"
          "client has no allowed origins registered; the dc_api flow requires at least one")
    check_each origins

  -- the checks of the stored origins for the browser-mediated flow
  unfoldable pub check_origins : String → List String → Result Refusal Unit
  unfolding check_each
  check_origins db_flow origins = if db_flow == "dcapi" then check_all origins else ok tt

  -- the checks of redirectUri and webhookUrl
  unfoldable pub check_targets : String → SessionRequest → Client → Result Refusal Unit
  unfolding origin_allowed
  check_targets db_flow req client = do
    has_redirect ← require (not (db_flow == "same_device" && req.redirect_uri == "")) (
        detailed_problem "err:request:invalid"
          "redirectUri is required for the same_device flow — it is the page the wallet returns the person to")
    redirect ←
        require
          (req.redirect_uri == "" || origin_allowed net req.redirect_uri client.allowed_origins)
          origin_fault
    require (req.webhook_url == "" || origin_allowed net req.webhook_url client.allowed_origins)
        origin_fault

  abbrev identity_required : Result RefFault RegistrationRef → Result Refusal RegistrationRef
  identity_required (ok reg) = ok reg
  identity_required (err fault) = refuse (
      detailed_problem "err:client:registrarIdentityRequired" (
        append "the client has no usable registrar identity (" (
          append (registration_ref_fault fault)
            "); record it on the registration API with PUT /api/clients/{id}/registrar-identity, then retry")))

  -- GetIntendedUse and the revocation check
  unfoldable pub active_use : String → Result Refusal IntendedUse
  active_use id = do
    iu ← lift (registry.get_intended_use client_id id)
    active ← require (iu.revoked_at == "") (new_problem "err:registrar:intendedUseRevoked")
    ok iu

  module _ {Q : Type 0} (dcql : Dcql Q) (correlation_id : String) (default_ttl : ℕ) where
    abbrev request_for :
        SessionRequest → String → Client → Target → Option String → RegistrationRef → CreateRequest
    request_for req db_flow client target wrprc reg = record {
      client_id = client_id;
      correlation_id = correlation_id;
      flow = db_flow;
      dcql_query = target.raw_query;
      policy = client.policy;
      webhook_url = if req.webhook_url == "" then client.default_webhook else req.webhook_url;
      redirect_uri = req.redirect_uri;
      registration = reg;
      wrprc = wrprc;
      expected_origins = if db_flow == "dcapi" then client.allowed_origins else [];
      ttl_seconds = if nat_eq req.ttl_seconds 0 then default_ttl else req.ttl_seconds;
    }

    -- the checks of a presentation against the registry, and the request for the engine
    unfoldable pub authorize : SessionRequest → String → Client → Result Refusal CreateRequest
    unfolding resolve_target active_use scope_refusal check_origins check_targets
        registration_ref_fault
    authorize req db_flow client = do
      target ← resolve_target req
      iu ← active_use target.intended_use_id
      q ← scope_refusal (check_within_scope dcql target.raw_query (iu ∷ []) target.intended_use_id)
      origins ← check_origins db_flow client.allowed_origins
      targets ← check_targets db_flow req client
      wrprc ← lift (registry.get_wrprc_for_intended_use client_id target.intended_use_id)
      reg ← identity_required (
          net.new_registration_ref client.name client.client_identifier client.registry_uri
            target.intended_use_id)
      ok (request_for req db_flow client target wrprc reg)

    -- the part of createSession before the call of the engine, for a body that decodes
    unfoldable pub prepare : SessionRequest → Result Refusal CreateRequest
    unfolding is_ttl_valid authorize
    prepare req = do
      one ←
          require
            (if req.template_id == ""
              then has_inline req.dcql_query
              else not (has_inline req.dcql_query))
            (bad_request "presentation must set exactly one of templateId or dcqlQuery")
      db_flow ← or_fail (flow_to_db req.flow) (plain (param_invalid "flow"))
      ttl ←
          require (is_ttl_valid req.ttl_seconds)
            (bad_request "ttlSeconds must be between 60 and 3600")
      client ← lift (registry.get_client client_id)
      authorize req db_flow client
