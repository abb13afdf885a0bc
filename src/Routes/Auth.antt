-- ===== src/Routes/Auth.antt =====
-- routes/authmw.go: `apiKeyAuth`, with the dummy pair of internal/apikeys/apikeys.go. The answer is
-- the client id that the next handler sees.
pub mod Uniform
pub mod Boundary
use eudi_api_management.Base.{
  List, ℕ, String, Bool, true, false, ◌&&◌, not, Option, none, some, ◌==◌, if◌then◌else◌,
}
use eudi_api_management.Base.Results.{Result, ok, err}
use eudi_api_management.Errors.{Error, new_problem, Kit, is_not_found_error, unauthorized}
use eudi_api_management.Registry.{ApiKeyRecord, Reads}
use eudi_api_management.ApiKeys.{Derive, parse}
use eudi_api_management.ApiKeys.Phc.{KeyError, encode_phc}
use eudi_api_management.ApiKeys.Verifier.{Verifier, Verdict, verify}

-- The three arguments of Verify, and the record that the prefix resolved to.
pub record Attempt : Type 0 where
  pub key_id : String
  pub phc_hash : String
  pub secret : String
  pub found : Option ApiKeyRecord

pub record Dummy : Type 0 where
  pub key_id : String
  pub phc_hash : String

-- DummyKeyID and DummyPHC; the salt is the head of a SHA-256 digest of a fixed text
unfoldable pub dummy_of : Derive → List ℕ → Dummy
unfolding encode_phc
dummy_of derive salt = record {
  key_id = "apikeys:dummy";
  phc_hash =
      encode_phc salt
        (derive "apikeys: fixed dummy secret v1 — never a real key" salt 2 19456 1 32);
}

abbrev unknown : Dummy → String → Attempt
unknown dummy secret = record {
  key_id = dummy.key_id;
  phc_hash = dummy.phc_hash;
  secret = secret;
  found = none;
}

abbrev attempt_found : Kit → Dummy → String → Result Error ApiKeyRecord → Result Error Attempt
attempt_found kit dummy secret (ok rec) =
    ok (record {
      key_id = rec.key_id;
      phc_hash = rec.secret_hash;
      secret = secret;
      found = some rec;
    })
attempt_found kit dummy secret (err e) =
    if is_not_found_error kit e then ok (unknown dummy secret) else err e

abbrev attempt_parsed :
    Kit → Reads → Dummy → String → Result KeyError (String × String) → Result Error Attempt
attempt_parsed kit registry dummy presented (err e) = ok (unknown dummy presented)
attempt_parsed kit registry dummy presented (ok (prefix, secret)) =
    attempt_found kit dummy secret (registry.get_client_by_key_prefix prefix)

-- the part of apiKeyAuth before Verify
unfoldable pub resolve : Kit → Reads → Dummy → String → Result Error Attempt
resolve kit registry dummy presented = attempt_parsed kit registry dummy presented (parse presented)

-- the part of apiKeyAuth after Verify: the client id
unfoldable pub admit : Option ApiKeyRecord → Result KeyError Bool → Result Error String
admit found (err e) = err unauthorized
admit found (ok false) = err unauthorized
admit none (ok true) = err unauthorized
admit (some rec) (ok true) =
    if rec.revoked
    then err unauthorized
    else if rec.status == "active"
    then ok rec.client_id
    else err (new_problem "err:client:notRegistered")

-- What the boundary did: the client id it lets through, the verifier after it, and whether the key
-- derivation ran.
pub record Entry : Type 0 where
  pub client : Result Error String
  pub verifier : Verifier
  pub derived : Bool

abbrev judged : Attempt → Verdict → Entry
judged a v = record { client = admit a.found v.answer; verifier = v.verifier; derived = v.derived }

module _ (sum256 : String → String) (derive : Derive) (kit : Kit) (dummy : Dummy) where
  abbrev verify_attempt : Verifier → ℕ → Result Error Attempt → Entry
  verify_attempt v now (err e) = record { client = err e; verifier = v; derived = false }
  verify_attempt v now (ok a) = judged a (verify sum256 derive v a.key_id a.phc_hash a.secret now)

  -- apiKeyAuth
  unfoldable pub api_key_auth : Reads → Verifier → String → ℕ → Entry
  unfolding resolve admit
  api_key_auth registry v presented now =
      verify_attempt v now (resolve kit registry dummy presented)
