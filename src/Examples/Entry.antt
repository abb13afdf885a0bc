-- ===== src/Examples/Entry.antt =====
-- The API-key boundary.
use eudi_api_management.Base.{
  ℕ, String, ◌≡◌, ◌≢◌, refl, ◌⊎◌, true, false, none, List, [], arith, All, ◌==◌, if◌then◌else◌,
}
use eudi_api_management.Base.Results.{ok, err}
use eudi_api_management.Base.Dict.{lookup}
use eudi_api_management.Errors.{Error, new_problem, unauthorized, is_not_found_error, refuse}
use eudi_api_management.ApiKeys.{parse}
use eudi_api_management.ApiKeys.Phc.{decode_phc}
use eudi_api_management.ApiKeys.Verifier.{new_verifier, verify}
use eudi_api_management.Text.Encoding.{IsByte}
use eudi_api_management.Registry.{ApiKeyRecord, Reads}
use eudi_api_management.Routes.Auth.{Attempt, Dummy, dummy_of, resolve, api_key_auth}
use eudi_api_management.Routes.Auth.Boundary.{api_key_auth-ok, api_key_auth-err}
use eudi_api_management.Routes.Auth.Uniform.{unknown_key-refused}
use eudi_api_management.Examples.World.{kit}
use eudi_api_management.Examples.Keys.{zeros, derive, digest, minted}

abbrev pub key_record : ApiKeyRecord
key_record = record {
  key_id = "k1";
  client_id = "alice";
  secret_hash = minted.phc_hash;
  status = "active";
  revoked = false;
}

-- one key, and no other row
abbrev pub registry : Reads
registry = record {
  get_client_by_key_prefix =
      λ prefix. if prefix == "00000000" then ok key_record else refuse kit "registry:not_found";
  get_client = λ client_id. refuse kit "registry:not_found";
  list_intended_uses = λ client_id. ok [];
  get_intended_use = λ client_id id. refuse kit "registry:not_found";
  get_wrprc_for_intended_use = λ client_id id. ok none;
  get_template = λ client_id id. refuse kit "registry:not_found";
  list_templates = λ client_id. ok [];
}

abbrev pub dummy : Dummy
dummy = record { key_id = "apikeys:dummy"; phc_hash = minted.phc_hash }

entered :
    (api_key_auth digest derive kit dummy registry new_verifier minted.display_key 10).client
    ≡ ok "alice"
unfolding api_key_auth parse verify lookup decode_phc eudi_api_management.Text.trim_left
    eudi_api_management.Text.is_space
entered = refl

api_key_auth-ok_example :
    (prefix : String) × (secret : String) × (rec : ApiKeyRecord) × (parse minted.display_key
      ≡ ok (prefix, secret))
    × (registry.get_client_by_key_prefix prefix ≡ ok rec)
    × ((verify digest derive new_verifier rec.key_id rec.secret_hash secret 10).answer ≡ ok true)
    × (rec.revoked ≡ false)
    × (rec.status ≡ "active")
    × (rec.client_id ≡ "alice")
api_key_auth-ok_example =
    api_key_auth-ok digest derive kit dummy registry new_verifier minted.display_key 10 "alice"
      entered

-- the same registry with the client suspended
abbrev idle_record : ApiKeyRecord
idle_record = record key_record { status = "suspended" }

abbrev idle_registry : Reads
idle_registry = record registry {
  get_client_by_key_prefix =
      λ prefix. if prefix == "00000000" then ok idle_record else refuse kit "registry:not_found";
}

abbrev not_registered : Error
not_registered = new_problem "err:client:notRegistered"

turned_away :
    (api_key_auth digest derive kit dummy idle_registry new_verifier minted.display_key 10).client
    ≡ err not_registered
unfolding api_key_auth parse verify lookup decode_phc eudi_api_management.Text.trim_left
    eudi_api_management.Text.is_space
turned_away = refl

api_key_auth-err_example :
    (not_registered ≡ unauthorized)
    ⊎ ((prefix : String) × (secret : String) × (rec : ApiKeyRecord) × (parse minted.display_key
          ≡ ok (prefix, secret))
        × (idle_registry.get_client_by_key_prefix prefix ≡ ok rec)
        × ((verify digest derive new_verifier rec.key_id rec.secret_hash secret 10).answer
            ≡ ok true)
        × (rec.revoked ≡ false)
        × (rec.status ≢ "active")
        × (not_registered ≡ not_registered))
    ⊎ ((prefix : String) × (idle_registry.get_client_by_key_prefix prefix ≡ err not_registered)
        × (is_not_found_error kit not_registered ≡ false))
api_key_auth-err_example =
    api_key_auth-err digest derive kit dummy idle_registry new_verifier minted.display_key 10
      not_registered turned_away

abbrev salt : List ℕ
salt = zeros 16

salt_bytes : All IsByte salt
salt_bytes = ground arith

tag_bytes : (secret : String) → All IsByte (derive secret salt 2 19456 1 32)
tag_bytes secret = ground arith

abbrev nonsense : Attempt
nonsense = record {
  key_id = "apikeys:dummy";
  phc_hash = (dummy_of derive salt).phc_hash;
  secret = "nonsense";
  found = none;
}

resolved : resolve kit registry (dummy_of derive salt) "nonsense" ≡ ok nonsense
unfolding resolve parse dummy_of
resolved = refl

uncached : lookup "apikeys:dummy" new_verifier.cache ≡ none
unfolding lookup
uncached = refl

unknown_key-refused_example :
    ((api_key_auth digest derive kit
        (dummy_of derive salt)
        registry
        new_verifier
        "nonsense"
        10).client
      ≡ err unauthorized)
    × ((api_key_auth digest derive kit
          (dummy_of derive salt)
          registry
          new_verifier
          "nonsense"
          10).derived
        ≡ true)
unknown_key-refused_example =
    unknown_key-refused digest derive kit salt registry new_verifier "nonsense" 10 nonsense resolved
      refl uncached salt_bytes refl (λ secret. refl) tag_bytes
