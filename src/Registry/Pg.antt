-- ===== src/Registry/Pg.antt =====
-- internal/registrydb/repo.go: `PG`, the production registry, as calls of stored procedures. The
-- database, encoding/json at the rows and the view of bytes as a text are arguments.
pub mod Refines
use eudi_api_management.Base.{ℕ, String, Option, none, some, List, [], ◌∷◌, ◌==◌, if◌then◌else◌}
use eudi_api_management.Base.Results.{Result, ok, err, ◌>>=◌}
use eudi_api_management.Base.Dict.{Dict}
use eudi_api_management.Text.Padded.{decode_std}
use eudi_api_management.Errors.{Error, fault, Kit}
use eudi_api_management.Procedures.{Decoder, Driver, Database, command, query, invoke}
use eudi_api_management.Registry.{Store, Client, IntendedUse, Template, ApiKeyRecord}

-- A value of the arguments: a text, a json.RawMessage, or a list.
pub data Argument : Type 0 where
  text : String → Argument
  json : String → Argument
  texts : List String → Argument
  uses : List IntendedUse → Argument

abbrev pub Arguments : Type 0
Arguments = Dict Argument

-- encoding/json at the data of the replies, and `string(bytes)`
pub record Rows : Type 0 where
  pub decode_key : String → Option ApiKeyRecord
  pub decode_client : String → Option Client
  pub decode_uses : String → Option (List IntendedUse)
  pub decode_use : String → Option IntendedUse
  -- the member `raw`, empty where it is absent
  pub decode_raw : String → Option String
  -- the members `id` and `created_at`
  pub decode_stamp : String → Option (String × ℕ)
  pub decode_template : String → Option Template
  pub decode_templates : String → Option (List Template)
  pub decode_id : String → Option String
  pub of_bytes : List ℕ → String

abbrev bytes_or : Rows → Option (List ℕ) → Result Error (Option String)
bytes_or rows none = err (fault "decode wrprc raw")
bytes_or rows (some bytes) = ok (some (rows.of_bytes bytes))

-- the part of GetWRPRCForIntendedUse after the decoding of the reply
unfoldable pub wrprc_of : Rows → String → Result Error (Option String)
wrprc_of rows encoded = if encoded == "" then ok none else bytes_or rows (decode_std encoded)

abbrev pub stamp : Template → Option (String × ℕ) → Option Template
stamp t none = none
stamp t (some (id, created_at)) = some (record t { id = id; created_at = created_at })

abbrev owned_by : String → Arguments
owned_by client_id = ("client_id", text client_id) ∷ []

abbrev use_arguments : String → String → Arguments
use_arguments client_id iu_id = ("client_id", text client_id) ∷ ("intended_use_id", text iu_id) ∷ []

abbrev template_arguments : String → String → Arguments
template_arguments client_id id = ("client_id", text client_id) ∷ ("template_id", text id) ∷ []

abbrev new_template_arguments : String → Template → Arguments
new_template_arguments client_id t =
    ("client_id", text client_id)
    ∷ ("name", text t.name)
    ∷ ("description", text t.description)
    ∷ ("intended_use_id", text t.intended_use_id)
    ∷ ("dcql_query", json t.dcql_query)
    ∷ []

-- a policy that is empty becomes an empty object; origins that are nil are an empty list
abbrev client_arguments : Client → Arguments
client_arguments c =
    ("name", text c.name)
    ∷ ("registry_uri", text c.registry_uri)
    ∷ ("client_identifier", text c.client_identifier)
    ∷ ("default_webhook_url", text c.default_webhook)
    ∷ ("allowed_origins", texts c.allowed_origins)
    ∷ ("policy", json (if c.policy == "" then "{}" else c.policy))
    ∷ []

abbrev pub read_wrprc : Kit → Decoder → Rows → Driver → Result Error (Option String)
read_wrprc kit decode rows reply = query rows.decode_raw kit decode reply >>= wrprc_of rows

module _ {S : Type 0} (kit : Kit) (decode : Decoder) (rows : Rows) (db : Database Arguments S) where
  unfoldable pub get_client_by_key_prefix : String → S → Result Error ApiKeyRecord × S
  get_client_by_key_prefix prefix =
      invoke (query rows.decode_key kit decode) db "registry.get_client_by_key_prefix"
        (("prefix", text prefix) ∷ [])

  unfoldable pub get_client : String → S → Result Error Client × S
  get_client client_id =
      invoke (query rows.decode_client kit decode) db "registry.get_client" (owned_by client_id)

  unfoldable pub list_intended_uses : String → S → Result Error (List IntendedUse) × S
  list_intended_uses client_id =
      invoke (query rows.decode_uses kit decode) db "registry.list_intended_uses"
        (owned_by client_id)

  unfoldable pub get_intended_use : String → String → S → Result Error IntendedUse × S
  get_intended_use client_id iu_id =
      invoke (query rows.decode_use kit decode) db "registry.get_intended_use"
        (use_arguments client_id iu_id)

  unfoldable pub get_wrprc_for_intended_use : String → String → S → Result Error (Option String) × S
  get_wrprc_for_intended_use client_id iu_id =
      invoke (read_wrprc kit decode rows) db "registry.get_wrprc_for_intended_use"
        (use_arguments client_id iu_id)

  -- CreateTemplate; the template that is returned has the new id and instant
  unfoldable pub create_template : String → Template → S → Result Error Template × S
  create_template client_id t =
      invoke (query (λ content. stamp t (rows.decode_stamp content)) kit decode) db
        "registry.create_template" (new_template_arguments client_id t)

  unfoldable pub get_template : String → String → S → Result Error Template × S
  get_template client_id id =
      invoke (query rows.decode_template kit decode) db "registry.get_template"
        (template_arguments client_id id)

  unfoldable pub list_templates : String → S → Result Error (List Template) × S
  list_templates client_id =
      invoke (query rows.decode_templates kit decode) db "registry.list_templates"
        (owned_by client_id)

  unfoldable pub delete_template : String → String → S → Result Error Unit × S
  delete_template client_id id =
      invoke (command kit decode) db "registry.delete_template" (template_arguments client_id id)

  unfoldable pub create_api_key : String → String → String → S → Result Error String × S
  create_api_key client_id prefix secret_hash =
      invoke (query rows.decode_id kit decode) db "registry.create_api_key" (
        ("client_id", text client_id)
        ∷ ("prefix", text prefix)
        ∷ ("secret_hash", text secret_hash)
        ∷ [])

  unfoldable pub revoke_api_key : String → String → S → Result Error Unit × S
  revoke_api_key client_id key_id =
      invoke (command kit decode) db "registry.revoke_api_key"
        (("client_id", text client_id) ∷ ("key_id", text key_id) ∷ [])

  -- CreateClient; `c.ID` becomes the id that is returned
  unfoldable pub create_client : Client → S → Result Error String × S
  create_client c =
      invoke (query rows.decode_id kit decode) db "registry.create_client" (client_arguments c)

  -- SetIntendedUses; `nil` is the empty list
  unfoldable pub set_intended_uses : String → List IntendedUse → S → Result Error Unit × S
  set_intended_uses client_id ius =
      invoke (command kit decode) db "registry.set_intended_uses"
        (("client_id", text client_id) ∷ ("intended_uses", uses ius) ∷ [])

  -- NewPG: the registry over this database
  unfoldable pub store : Store S
  unfolding get_client_by_key_prefix get_client list_intended_uses get_intended_use
      get_wrprc_for_intended_use create_template get_template list_templates delete_template
      create_api_key revoke_api_key create_client set_intended_uses
  store = record {
    get_client_by_key_prefix = get_client_by_key_prefix;
    get_client = get_client;
    list_intended_uses = list_intended_uses;
    get_intended_use = get_intended_use;
    get_wrprc_for_intended_use = get_wrprc_for_intended_use;
    create_template = create_template;
    get_template = get_template;
    list_templates = list_templates;
    delete_template = delete_template;
    create_api_key = create_api_key;
    revoke_api_key = revoke_api_key;
    create_client = create_client;
    set_intended_uses = set_intended_uses;
  }
