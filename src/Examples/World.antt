-- ===== src/Examples/World.antt =====
-- Concrete collaborators: a kit, a codec, keys, an HTTP client, an engine and stored rows.
use eudi_api_management.Base.{
  ℕ, true, false, ◌||◌, Option, none, some, [], ◌∷◌, ◌==◌, if◌then◌else◌,
}
use eudi_api_management.Errors.{Error, new_problem, Kit}
use eudi_api_management.Wire.{PipelineResult, Envelope, Codec, Keys}
use eudi_api_management.SessionDb.{Session, Fake}
use eudi_api_management.SessionDb.Expire.{fake_store}
use eudi_api_management.Verifier.{CreateResponse, no_response, answer, Engine}
use eudi_api_management.Valkey.{Valkey, Faults}
use eudi_api_management.Webhook.Retrier.{Retrier}
use eudi_api_management.Webhook.Deliverer.{Doer}
use eudi_api_management.Webhook.Consumer.{World, Services}

abbrev status_of : Error → Option ℕ
status_of (Error.problem p) =
    if p.code == "err:registry:not_found" || p.code == "err:session:not_found"
    then some 404
    else none
status_of _ = none

abbrev pub kit : Kit
kit = record { from_result_code = new_problem; status_code = status_of }

abbrev pub result : PipelineResult
result = record { outcome = "verified"; report = none; credentials = [] }

abbrev pub envelope : Envelope
envelope = record {
  session_id = "s1";
  correlation_id = "c1";
  webhook_url = "https://rp.example/hook";
  result_jwe = "jwe";
  expires_at = 1000;
}

abbrev pub codec : Codec
codec = record {
  decode_envelope = λ raw. if raw == "envelope" then some envelope else none;
  decode_result = λ raw. if raw == "result" then some result else none;
  decode_report = λ raw. none;
  encode_report = λ r. none;
  encode_payload = λ p. some "body";
}

abbrev pub keys : Keys
keys = record {
  decrypt_jwe = λ raw. if raw == "jwe" then some "result" else none;
  sign_jws = λ body. some "h.p.s";
}

abbrev pub no_faults : Faults
no_faults n = false

abbrev pub session : Session
session = record {
  id = "s1";
  client_id = "alice";
  correlation_id = "c1";
  flow = "same_device";
  status = "verified";
  webhook_url = "https://rp.example/hook";
  redirect_uri = "https://rp.example/back";
  created_at = 1;
  updated_at = 5;
  expires_at = 1000;
  code_redeemed_at = none;
  webhook_state = "pending";
}

abbrev pub sessions : Fake
sessions = record { sessions = ("s1", session) ∷ []; reports = []; last_err_code = [] }

-- an open session past its deadline at instant 10
abbrev pub overdue : Session
overdue = record session { id = "s2"; status = "pending"; expires_at = 10 }

abbrev pub cache : Valkey
cache = record {
  payloads = ("s1", record { text = "envelope"; expires_at = 1000 }) ∷ [];
  queue = "s1" ∷ [];
  retries = [];
  attempts = [];
  resp_codes = ("code", record { text = "s1"; expires_at = 1000 }) ∷ [];
  served = 0;
}

abbrev pub created : CreateResponse
created = record no_response { session_id = "s9"; wallet_url = "https://wallet.example" }

abbrev pub engine : Engine
engine = record {
  can_address = λ path. true;
  send = λ req. answer 201 "created";
  encode_request = λ req. some "request";
  decode_response = λ body. some created;
  parse_problem = λ body. none;
}

abbrev pub doer : Option ℕ → Doer
doer status = record { can_build = λ url. true; send = λ post. status }

abbrev pub retrier : Retrier
retrier = record { base = 5; max_attempts = 8 }

-- services over the in-memory store, with the answer of the client's webhook
abbrev pub services : Option ℕ → Faults → Services Fake
services status faults = record {
  store = fake_store kit 10;
  codec = codec;
  keys = keys;
  doer = doer status;
  retrier = retrier;
  faults = faults;
}

abbrev pub world : World Fake
world = record { valkey = cache; db = sessions; delivered = 0; failures = 0; posts = [] }
