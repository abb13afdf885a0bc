-- ===== src/Wire.antt =====
-- The wire types: internal/api/types.go, and what the program reads of handoffwire's envelope. A
-- JSON value that the program passes through unread is its text.
pub mod Flows
use eudi_api_management.Base.{ℕ, String, Option, List, Bool}

pub record ReportCheck : Type 0 where
  pub check : String
  pub credential_ref : String
  pub outcome : String
  pub code : String
  pub spec_ref : String

pub record VerificationReport : Type 0 where
  pub checks : List ReportCheck

pub record Failure : Type 0 where
  pub code : String
  pub detail : String

pub record ResultCredential : Type 0 where
  pub query_id : String
  pub format : String
  pub doctype_or_vct : String
  pub issuer_country : String
  pub claims : String

pub record VerificationResult : Type 0 where
  pub credentials : List ResultCredential

pub record WebhookPayload : Type 0 where
  pub session_id : String
  pub state : String
  pub report : Option VerificationReport
  pub result : Option VerificationResult
  pub failure : Option Failure

-- handoffwire.CheckResult, Report, Credential, Result and Envelope, by the fields that are read
pub record CheckResult : Type 0 where
  pub check : String
  pub outcome : String
  pub code : String
  pub spec_ref : String

pub record PipelineReport : Type 0 where
  pub checks : List CheckResult
  pub fail_code : String

pub record Credential : Type 0 where
  pub query_credential_id : String
  pub format : String
  pub doctype_or_vct : String
  pub claims : String

pub record PipelineResult : Type 0 where
  pub outcome : String
  pub report : Option PipelineReport
  pub credentials : List Credential

pub record Envelope : Type 0 where
  pub session_id : String
  pub correlation_id : String
  pub webhook_url : String
  pub result_jwe : String
  pub expires_at : ℕ

-- encoding/json at the types above; `none` is its error
pub record Codec : Type 0 where
  pub decode_envelope : String → Option Envelope
  pub decode_result : String → Option PipelineResult
  pub decode_report : String → Option PipelineReport
  pub encode_report : PipelineReport → Option String
  pub encode_payload : WebhookPayload → Option String

-- go-eudi-crypto with the operator's keys: DecryptJWE and SignJWS
pub record Keys : Type 0 where
  pub decrypt_jwe : String → Option String
  pub sign_jws : String → Option String
