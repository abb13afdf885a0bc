-- ===== src/Examples/Rows.antt =====
-- The registry.
use eudi_api_management.Base.{String, ◌≡◌, ◌≢◌, refl, true, false, some, [], ◌∷◌, arith, eq_iff}
use eudi_api_management.Base.Results.{ok}
use eudi_api_management.Base.Dict.{lookup}
use eudi_api_management.Errors.{refuse}
use eudi_api_management.Registry.{Client, IntendedUse, Template, ApiKeyRecord}
use eudi_api_management.Registry.Fake.{
  Fake, new_fake, get_intended_use, get_template, create_template, delete_template,
  get_client_by_key_prefix, create_api_key, revoke_api_key,
}
use eudi_api_management.Registry.Fake.Ownership.{create_template-ok}
use eudi_api_management.Registry.Fake.KeyTable.{revoke_api_key-ok}
use eudi_api_management.Scope.{Dcql}
use eudi_api_management.Examples.World.{kit}

abbrev pub use_row : IntendedUse
use_row = record {
  id = "i1";
  intended_use_id = "age";
  purpose = "";
  credentials = [];
  revoked_at = "";
}

abbrev pub client : Client
client = record {
  id = "alice";
  name = "Alice";
  status = "active";
  registry_uri = "https://registrar.example";
  client_identifier = "LV-1";
  default_webhook = "https://rp.example/hook";
  allowed_origins = "https://rp.example" ∷ [];
  policy = "{}";
}

abbrev pub rows : Fake
rows = record new_fake {
  clients = ("alice", client) ∷ [];
  intended_uses = ("alice", ("age", use_row) ∷ []) ∷ [];
}

abbrev draft : Template
draft = record {
  id = "";
  name = "Over 18";
  description = "";
  intended_use_id = "age";
  dcql_query = "{}";
  created_at = 0;
}

abbrev first_id : String
first_id = "01JZXFAKE00000000000000001"

abbrev stored : Template
stored = record draft { id = first_id; created_at = 7 }

made : (create_template kit 7 "alice" draft rows).0 ≡ ok stored
unfolding create_template lookup
made = refl

alice_not_bob : ◌≢◌ {A = String} "alice" "bob"
alice_not_bob e = ground (arith, eq_iff "alice" "bob")

create_template-ok_example :
    ((iu : IntendedUse) × (get_intended_use kit rows "alice" "age" ≡ ok iu) × (iu.revoked_at ≡ ""))
    × (get_template kit (create_template kit 7 "alice" draft rows).1 "alice" first_id ≡ ok stored)
    × (get_template kit (create_template kit 7 "alice" draft rows).1 "bob" first_id
        ≡ refuse kit "registry:not_found")
create_template-ok_example =
    create_template-ok kit 7 "alice" draft rows stored "bob" made alice_not_bob

abbrev with_template : Fake
with_template = record rows {
  templates = (first_id, record { template = stored; client_id = "alice"; deleted = false }) ∷ [];
}

removed : (delete_template kit "alice" first_id with_template).0 ≡ ok tt
unfolding delete_template lookup
removed = refl

key_made : (create_api_key kit "alice" "00000000" "hash" rows).0 ≡ ok first_id
unfolding create_api_key lookup
key_made = refl

abbrev with_key : Fake
with_key = record rows {
  api_keys =
      (
        "k1",
        record {
          key_id = "k1";
          client_id = "alice";
          secret_hash = "hash";
          status = "";
          revoked = false;
        },
      )
      ∷ [];
  keys_by_prefix = ("00000000", "k1") ∷ [];
}

revoked : (revoke_api_key kit "alice" "k1" with_key).0 ≡ ok tt
unfolding revoke_api_key lookup
revoked = refl

indexed : lookup "00000000" with_key.keys_by_prefix ≡ some "k1"
unfolding lookup
indexed = refl

revoke_api_key-ok_example :
    ((k : ApiKeyRecord) × (lookup "k1" with_key.api_keys ≡ some k) × (k.client_id ≡ "alice"))
    × ((rec : ApiKeyRecord) × (get_client_by_key_prefix kit
            (revoke_api_key kit "alice" "k1" with_key).1
            "00000000"
          ≡ ok rec)
        × (rec.revoked ≡ true))
revoke_api_key-ok_example = revoke_api_key-ok kit "alice" "k1" with_key "00000000" revoked indexed

-- a query language of one query, which lies in every scope
abbrev pub dcql : Dcql String
dcql = record {
  parse = λ raw. some raw;
  is_valid = λ q. true;
  within_scope = λ q credentials. (true, []);
}
