-- ===== src/Routes/Create.antt =====
-- routes/sessions.go: `createSession`, with the call of the engine. The engine and go-dcql are arguments.
pub mod Calls
use eudi_api_management.Base.{
  ℕ, ◌/◌, String, Bool, true, false, ◌&&◌, ◌||◌, not, Option, none, some, List, [], ◌∷◌, ◌==◌, ltb,
  nat_eq, if◌then◌else◌, length, all, any,
}
use eudi_api_management.Base.Results.{Result, ok, err, ◌>>=◌, or_fail}
use eudi_api_management.Base.Dict.{Dict}
use eudi_api_management.Text.{append}
use eudi_api_management.Routes.Web.{
  Url, Net, Refusal, plain, scope_denied, error_of, refuse, lift, require, is_web_origin,
  origin_allowed, scope_refusal, origin_fault,
}
use eudi_api_management.Errors.{Error, new_problem, detailed_problem, bad_request, param_invalid}
use eudi_api_management.Registry.{Client, IntendedUse, Template, Reads}
use eudi_api_management.Scope.{
  Dcql, ScopeFailure, unparsable, invalid, exceeded, failed, check_within_scope,
}
use eudi_api_management.Wire.Flows.{flow_to_db, flow_from_db}
use eudi_api_management.Verifier.{
  RegistrationRef, CreateRequest, CreateResponse, Engine, Exchange, Request, unavailable,
  create_session,
}
use eudi_api_management.Routes.Prepare.{SessionRequest, prepare}

-- api.SessionCreated
pub record SessionCreated : Type 0 where
  pub session_id : String
  pub state : String
  pub wallet_url : String
  pub qr_payload : String
  pub dc_api_request : Option (Dict String)
  pub dc_api_response_uri : String
  pub expires_at : ℕ

-- What a request did: the answer, the request to the engine and the counters it raised.
pub record Creation : Type 0 where
  pub reply : Result Error SessionCreated
  pub sent : Option Request
  pub scope_denials : ℕ
  pub created_flows : List String

module _ (net : Net) where
  abbrev refused : Refusal → Creation
  refused (plain e) = record { reply = err e; sent = none; scope_denials = 0; created_flows = [] }
  refused (scope_denied offenses) = record {
    reply = err (error_of (scope_denied offenses));
    sent = none;
    scope_denials = 1;
    created_flows = [];
  }

  -- the answer for a session that the engine created
  unfoldable pub created_body : String → CreateResponse → Result Error SessionCreated
  created_body db_flow r =
      let out : SessionCreated = record {
        session_id = r.session_id;
        state = "pending";
        wallet_url = r.wallet_url;
        qr_payload = r.qr_payload;
        dc_api_request = none;
        dc_api_response_uri = if db_flow == "dcapi" then r.response_uri else "";
        expires_at = r.expires_at;
      } in
      if r.dc_api_request == "" then ok out else elim (net.decode_object r.dc_api_request) [
        | none ↦ err unavailable
        | some object ↦ ok (record out { dc_api_request = some object })
      ]

  abbrev answered : CreateRequest → Option Request → Result Error SessionCreated → Creation
  answered req sent (err e) = record {
    reply = err e;
    sent = sent;
    scope_denials = 0;
    created_flows = [];
  }
  answered req sent (ok out) = record {
    reply = ok out;
    sent = sent;
    scope_denials = 0;
    created_flows = flow_from_db req.flow ∷ [];
  }

  abbrev with_engine : CreateRequest → Exchange CreateResponse → Creation
  with_engine req x = answered req x.sent (x.outcome >>= created_body req.flow)

  abbrev of_prepared : Engine → String → String → Result Refusal CreateRequest → Creation
  of_prepared engine token inbound_id (err r) = refused r
  of_prepared engine token inbound_id (ok req) =
      with_engine req (create_session engine token inbound_id req)

  module _ (registry : Reads) (client_id : String) {Q : Type 0} (dcql : Dcql Q)
      (correlation_id : String) (default_ttl : ℕ) where
    -- createSession, for a body that decodes
    unfoldable pub handle_create : Engine → String → String → SessionRequest → Creation
    unfolding prepare created_body error_of
    handle_create engine token inbound_id req =
        of_prepared engine token inbound_id
          (prepare net registry client_id dcql correlation_id default_ttl req)
