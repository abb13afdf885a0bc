-- ===== src/Registry.antt =====
-- internal/registrydb/repo.go: the rows of the registry schema and `Store` with the reads of it.
-- A JSON value that the program passes through unread is its text.
pub mod Fake
pub mod Pg
pub mod Calls
use eudi_api_management.Base.{ℕ, String, Bool, Option, List}
use eudi_api_management.Base.Int64.{ℤ}
use eudi_api_management.Base.Results.{Result}
use eudi_api_management.Errors.{Error}

pub record Client : Type 0 where
  pub id : String
  pub name : String
  pub status : String
  pub registry_uri : String
  pub client_identifier : String
  pub default_webhook : String
  pub allowed_origins : List String
  pub policy : String

-- One element of a claim path as encoding/json decodes it. Of a float64 two things are read: whether
-- it is negative, and its value cut to an integer. Of a json.Number it is what `Int64` gives.
pub data JsonElement : Type 0 where
  null : JsonElement
  text : String → JsonElement
  float : Bool → ℕ → JsonElement
  number : Option ℤ → JsonElement
  other : String → JsonElement

pub record RegisteredCredential : Type 0 where
  pub format : String
  pub doctypes_or_vcts : List String
  pub all_claims : Bool
  pub claims : List (List JsonElement)

-- `revoked_at` is empty while the intended use is active.
pub record IntendedUse : Type 0 where
  pub id : String
  pub intended_use_id : String
  pub purpose : String
  pub credentials : List RegisteredCredential
  pub revoked_at : String

pub record Template : Type 0 where
  pub id : String
  pub name : String
  pub description : String
  pub intended_use_id : String
  pub dcql_query : String
  pub created_at : ℕ

pub record ApiKeyRecord : Type 0 where
  pub key_id : String
  pub client_id : String
  pub secret_hash : String
  pub status : String
  pub revoked : Bool

-- The reads of `Store`, each against one state of the registry.
pub record Reads : Type 0 where
  pub get_client_by_key_prefix : String → Result Error ApiKeyRecord
  pub get_client : String → Result Error Client
  pub list_intended_uses : String → Result Error (List IntendedUse)
  pub get_intended_use : String → String → Result Error IntendedUse
  pub get_wrprc_for_intended_use : String → String → Result Error (Option String)
  pub get_template : String → String → Result Error Template
  pub list_templates : String → Result Error (List Template)

-- `Store` over a registry in a state of type S. CreateTemplate and CreateClient write the id, and the
-- former also the instant, into the row that they are given; here a creation returns the template as
-- it is then, and the id of the client.
pub record Store (S : Type 0) : Type 0 where
  pub get_client_by_key_prefix : String → S → Result Error ApiKeyRecord × S
  pub get_client : String → S → Result Error Client × S
  pub list_intended_uses : String → S → Result Error (List IntendedUse) × S
  pub get_intended_use : String → String → S → Result Error IntendedUse × S
  pub get_wrprc_for_intended_use : String → String → S → Result Error (Option String) × S
  pub create_template : String → Template → S → Result Error Template × S
  pub get_template : String → String → S → Result Error Template × S
  pub list_templates : String → S → Result Error (List Template) × S
  pub delete_template : String → String → S → Result Error Unit × S
  pub create_api_key : String → String → String → S → Result Error String × S
  pub revoke_api_key : String → String → S → Result Error Unit × S
  pub create_client : Client → S → Result Error String × S
  pub set_intended_uses : String → List IntendedUse → S → Result Error Unit × S
