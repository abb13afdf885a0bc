-- ===== src/Results.antt =====
-- internal/results/results.go: reading the handoff payload and mapping it onto the wire types. What
-- `rdb.Get` gave is an argument: a text, nothing, or a failure.
pub mod Mapping
use eudi_api_management.Base.{String, ◌≡◌, Option, none, some, List, map, ◌==◌, if◌then◌else◌}
use eudi_api_management.Base.Results.{Result, ok, err, ◌>>=◌, or_fail}
use eudi_api_management.Errors.{Error, fault}
use eudi_api_management.Wire.{
  ReportCheck, VerificationReport, Failure, ResultCredential, VerificationResult, CheckResult,
  PipelineReport, Credential, PipelineResult, Envelope, Codec, Keys,
}

-- the answer of one read of the cache
pub data Reply {ℓ} (A : Type ℓ) : Type ℓ where
  value : A → Reply A
  nil : Reply A
  failed : Reply A

unfoldable map_credential : Credential → ResultCredential
map_credential c = record {
  query_id = c.query_credential_id;
  format = c.format;
  doctype_or_vct = c.doctype_or_vct;
  issuer_country = "";
  claims = c.claims;
}

-- mapResult, and mapResultCredentials of internal/webhook/consumer.go
unfoldable pub map_result : PipelineResult → VerificationResult
unfolding map_credential
map_result res = record { credentials = map map_credential res.credentials }

unfoldable pub map_outcome : String → String
map_outcome outcome = if outcome == "skipped" then "skipped_by_policy" else outcome

unfoldable pub map_check : CheckResult → ReportCheck
unfolding map_outcome
map_check c = record {
  check = c.check;
  credential_ref = "";
  outcome = map_outcome c.outcome;
  code = c.code;
  spec_ref = c.spec_ref;
}

unfoldable pub map_failure : String → Option Failure
map_failure fail_code =
    if fail_code == "" then none else some (record { code = fail_code; detail = "" })

-- a report and a failure, either of which may be nil
abbrev pub Mapped : Type 0
Mapped = Option VerificationReport × Option Failure

unfoldable pub map_decoded : PipelineReport → Mapped
unfolding map_check map_failure
map_decoded rep = (some (record { checks = map map_check rep.checks }), map_failure rep.fail_code)

pub record Fetched : Type 0 where
  pub result : Option VerificationResult
  pub report : Option VerificationReport
  pub failure : Option Failure

module _ (codec : Codec) where
  -- MapReport
  unfoldable pub map_report : String → Result Error Mapped
  unfolding map_decoded
  map_report raw = if raw == "" then ok (none, none) else do
    rep ← or_fail (codec.decode_report raw) (fault "results: malformed report")
    ok (map_decoded rep)

  -- the report embedded in a decrypted result, encoded again and mapped
  unfoldable pub map_embedded : String → Option PipelineReport → Result Error Mapped
  unfolding map_report
  map_embedded what none = ok (none, none)
  map_embedded what (some rep) = do
    raw ← or_fail (codec.encode_report rep) (fault what)
    map_report raw

  -- Fetch, after the read of the payload
  unfoldable pub fetch : Keys → Reply String → Result Error Fetched
  unfolding map_result map_embedded
  fetch keys nil = ok (record { result = none; report = none; failure = none })
  fetch keys failed = err (fault "results: read payload")
  fetch keys (value raw) = do
    env ← or_fail (codec.decode_envelope raw) (fault "results: malformed envelope")
    plain ← or_fail (keys.decrypt_jwe env.result_jwe) (fault "results: decrypt result_jwe")
    res ← or_fail (codec.decode_result plain) (fault "results: malformed result")
    mapped ← map_embedded "results: re-marshal embedded report" res.report
    ok (record { result = some (map_result res); report = mapped.0; failure = mapped.1 })
