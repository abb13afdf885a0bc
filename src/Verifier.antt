-- ===== src/Verifier.antt =====
-- internal/vcclient/client.go: the client of the verifier engine's internal API. The HTTP client,
-- encoding/json and the parser of problem documents are arguments.
pub mod Failures
use eudi_api_management.Base.{
  ℕ, ◌/◌, String, Bool, true, false, ◌&&◌, not, Option, none, some, List, [], ◌∷◌, ◌==◌, nat_eq,
  if◌then◌else◌,
}
use eudi_api_management.Base.Results.{Result, ok, err}
use eudi_api_management.Text.{append}
use eudi_api_management.Errors.{Error, Problem, problem, relayed, fault}

-- rpcert.RegistrationRef
pub record RegistrationRef : Type 0 where
  pub name : String
  pub sub : String
  pub registry_uri : String
  pub intended_use_id : String

pub record CreateRequest : Type 0 where
  pub client_id : String
  pub correlation_id : String
  pub flow : String
  pub dcql_query : String
  pub policy : String
  pub webhook_url : String
  pub redirect_uri : String
  pub registration : RegistrationRef
  pub wrprc : Option String
  pub expected_origins : List String
  pub ttl_seconds : ℕ

-- `dc_api_request` is the empty text where the member is absent.
pub record CreateResponse : Type 0 where
  pub session_id : String
  pub expires_at : ℕ
  pub request_uri : String
  pub response_uri : String
  pub scheme_uri : String
  pub wallet_url : String
  pub qr_payload : String
  pub dc_api_request : String

-- the zero value that an empty body leaves
abbrev pub no_response : CreateResponse
no_response = record {
  session_id = "";
  expires_at = 0;
  request_uri = "";
  response_uri = "";
  scheme_uri = "";
  wallet_url = "";
  qr_payload = "";
  dc_api_request = "";
}

pub record Request : Type 0 where
  pub method : String
  pub path : String
  pub authorization : String
  pub correlation_id : Option String
  pub body : Option String

-- what `hc.Do` and `BodyUncompressed` give
pub data Answer : Type 0 where
  unreachable : Answer
  unreadable : Answer
  answer : ℕ → String → Answer

pub record Engine : Type 0 where
  pub can_address : String → Bool
  pub send : Request → Answer
  pub encode_request : CreateRequest → Option String
  pub decode_response : String → Option CreateResponse
  -- pkerrors.ParseProblem: the problem, and its status
  pub parse_problem : String → Option (Problem × ℕ)

-- Unavailable; its detail stays internal and is left out
abbrev pub unavailable : Error
unavailable = problem (record {
  code = "err:upstream:unavailable";
  public_detail = none;
  status = some 502;
  source = some "eudi-api-management";
  title = some "Verifier engine unavailable";
})

-- What a call did: its result, and the request that was sent, if one was.
pub record Exchange (A : Type 0) : Type 0 where
  pub outcome : Result Error A
  pub sent : Option Request

abbrev relay : Option (Problem × ℕ) → Error
relay none = unavailable
relay (some (down, status)) = relayed down status

unfoldable pub is_ok : ℕ → Bool
is_ok status = nat_eq (status / 100) 2

-- the decoding of `out` from the body of a 2xx answer
abbrev decoded : {A : Type 0} → Option A → Result Error A
decoded none = err unavailable
decoded (some a) = ok a

module _ (engine : Engine) where
  -- the part of `do` after the answer, with the decoder of `out`
  unfoldable pub read_answer : {A : Type 0} → (String → Option A) → Answer → Result Error A
  unfolding is_ok
  read_answer decode unreachable = err unavailable
  read_answer decode unreadable = err unavailable
  read_answer decode (answer status body) =
      if is_ok status then decoded (decode body) else err (relay (engine.parse_problem body))

  -- do, for a body that is already encoded
  unfoldable pub exchange : {A : Type 0} → (String → Option A) → Request → Exchange A
  unfolding read_answer
  exchange decode req =
      if engine.can_address req.path
      then record { outcome = read_answer decode (engine.send req); sent = some req }
      else record { outcome = err (fault "invalid request URL"); sent = none }

  abbrev request_of : String → String → String → String → Option String → Request
  request_of token method path correlation_id body = record {
    method = method;
    path = path;
    authorization = append "Bearer " token;
    correlation_id = if correlation_id == "" then none else some correlation_id;
    body = body;
  }

  abbrev decode_created : String → Option CreateResponse
  decode_created body = if body == "" then some no_response else engine.decode_response body

  -- CreateSession
  unfoldable pub create_session : String → String → CreateRequest → Exchange CreateResponse
  unfolding exchange
  create_session token correlation_id req = elim (engine.encode_request req) [
    | none ↦ record { outcome = err (fault "json: unsupported value"); sent = none }
    | some body ↦
        exchange decode_created
          (request_of token "POST" "/internal/v1/sessions" correlation_id (some body))
  ]

  -- DeleteSession; the body of the answer is not decoded
  unfoldable pub delete_session : String → String → String → Exchange Unit
  unfolding exchange
  delete_session token correlation_id id =
      exchange (λ body. some tt)
        (request_of token "DELETE" (append "/internal/v1/sessions/" id) correlation_id none)
