-- ===== src/Registry/Fake.antt =====
-- internal/registrydb/fake.go: the in-memory registry, which the program keeps for its tests.
-- The map of intended uses of a client, and the maps of the other rows, are dictionaries.
pub mod Ids
pub mod Sound
pub mod Reached
pub mod KeyTable
pub mod Ownership
use eudi_api_management.Base.{
  ℕ, zero, suc, ◌/◌, ◌%◌, String, Bool, true, false, not, ◌&&◌, ◌||◌, Option, none, some, List, [],
  ◌∷◌, ◌==◌, nat_eq, if◌then◌else◌, get_elem?,
}
use eudi_api_management.Base.Results.{Result, ok, err, ◌>>=◌}
use eudi_api_management.Base.Dict.{Dict, lookup, insert}
use eudi_api_management.Text.{append}
use eudi_api_management.Errors.{Error, Kit, refuse}
use eudi_api_management.Registry.{Client, IntendedUse, Template, ApiKeyRecord, Reads}

pub record FakeTemplate : Type 0 where
  pub template : Template
  pub client_id : String
  pub deleted : Bool

pub record Fake : Type 0 where
  pub clients : Dict Client
  pub intended_uses : Dict (Dict IntendedUse)
  pub templates : Dict FakeTemplate
  pub api_keys : Dict ApiKeyRecord
  pub keys_by_prefix : Dict String
  pub wrprcs : Dict String
  pub seq : ℕ

abbrev pub new_fake : Fake
new_fake = record {
  clients = [];
  intended_uses = [];
  templates = [];
  api_keys = [];
  keys_by_prefix = [];
  wrprcs = [];
  seq = 0;
}

abbrev digit_of : Option String → String
digit_of none = ""
digit_of (some d) = d

abbrev digit : ℕ → String
digit n = digit_of (get_elem? ("0" ∷ "1" ∷ "2" ∷ "3" ∷ "4" ∷ "5" ∷ "6" ∷ "7" ∷ "8" ∷ "9" ∷ []) n)

-- the last `width` decimal digits, with zeros in front
unfoldable decimal : ℕ → ℕ → String
decimal zero n = ""
decimal (suc width) n = append (decimal width (n / 10)) (digit (n % 10))

-- nextID, for fewer than 10 ^ 17 rows
unfoldable pub next_id : Fake → String × Fake
unfolding decimal
next_id f = (append "01JZXFAKE" (decimal 17 (suc f.seq)), record f { seq = suc f.seq })

abbrev pub status_of : Option Client → String
status_of none = ""
status_of (some c) = c.status

-- `tpl, ok := f.templates[templateID]; !ok || tpl.ClientID != clientID || tpl.Deleted`
unfoldable pub own_template : String → Option FakeTemplate → Option FakeTemplate
own_template client_id none = none
own_template client_id (some t) =
    if not (t.client_id == client_id) || t.deleted then none else some t

unfoldable pub own_templates : String → Dict FakeTemplate → List Template
own_templates client_id [] = []
own_templates client_id ((id, t) ∷ rest) =
    let others = own_templates client_id rest in
    if t.client_id == client_id && not t.deleted then t.template ∷ others else others

abbrev values : {V : Type 0} → Dict V → List V
values [] = []
values ((k, v) ∷ rest) = v ∷ values rest

-- f.intendedUses[clientID], or an empty map
abbrev uses_of : Option (Dict IntendedUse) → Dict IntendedUse
uses_of none = []
uses_of (some m) = m

module _ (kit : Kit) where
  -- GetIntendedUse: an unknown client has no intended use
  unfoldable pub get_intended_use : Fake → String → String → Result Error IntendedUse
  get_intended_use f client_id iu_id =
      elim (lookup iu_id (uses_of (lookup client_id f.intended_uses))) [
        | none ↦ refuse kit "registry:not_found"
        | some iu ↦ ok iu
      ]

  unfoldable pub get_wrprc_for_intended_use : Fake → String → String → Result Error (Option String)
  unfolding get_intended_use
  get_wrprc_for_intended_use f client_id iu_id = do
    iu ← get_intended_use f client_id iu_id
    ok (lookup (append client_id (append "|" iu_id)) f.wrprcs)

  unfoldable pub get_template : Fake → String → String → Result Error Template
  unfolding own_template
  get_template f client_id id = elim (own_template client_id (lookup id f.templates)) [
    | none ↦ refuse kit "registry:not_found"
    | some t ↦ ok t.template
  ]

  unfoldable pub get_client : Fake → String → Result Error Client
  get_client f client_id = elim (lookup client_id f.clients) [
    | none ↦ refuse kit "registry:not_found"
    | some c ↦ ok c
  ]

  abbrev with_status : Fake → ApiKeyRecord → ApiKeyRecord
  with_status f k = record k { status = status_of (lookup k.client_id f.clients) }

  -- A prefix that is in the index has a row.
  unfoldable pub get_client_by_key_prefix : Fake → String → Result Error ApiKeyRecord
  get_client_by_key_prefix f prefix = elim (lookup prefix f.keys_by_prefix) [
    | none ↦ refuse kit "registry:not_found"
    | some key_id ↦ elim (lookup key_id f.api_keys) [
      | none ↦ refuse kit "registry:not_found"
      | some k ↦ ok (with_status f k)
    ]
  ]

  abbrev pub reads : Fake → Reads
  reads f = record {
    get_client_by_key_prefix = get_client_by_key_prefix f;
    get_client = get_client f;
    list_intended_uses = λ client_id. ok (values (uses_of (lookup client_id f.intended_uses)));
    get_intended_use = get_intended_use f;
    get_wrprc_for_intended_use = get_wrprc_for_intended_use f;
    get_template = get_template f;
    list_templates = λ client_id. ok (own_templates client_id f.templates);
  }

  abbrev store_template : String → Template → ℕ → String × Fake → Template × Fake
  store_template client_id t now (id, f) =
      let row : Template = record t { id = id; created_at = now } in
      (
        row,
        record f {
          templates =
              insert id (record { template = row; client_id = client_id; deleted = false })
                f.templates;
        },
      )

  abbrev created : Template × Fake → Result Error Template × Fake
  created (row, f) = (ok row, f)

  -- CreateTemplate; the template that is returned has the new id and instant
  unfoldable pub create_template : ℕ → String → Template → Fake → Result Error Template × Fake
  unfolding get_intended_use next_id
  create_template now client_id t f = elim (get_intended_use f client_id t.intended_use_id) [
    | err e ↦ (err e, f)
    | ok iu ↦
        if iu.revoked_at == ""
        then created (store_template client_id t now (next_id f))
        else (refuse kit "registry:intended_use_revoked", f)
  ]

  unfoldable pub delete_template : String → String → Fake → Result Error Unit × Fake
  unfolding own_template
  delete_template client_id id f = elim (own_template client_id (lookup id f.templates)) [
    | none ↦ (refuse kit "registry:not_found", f)
    | some t ↦ (ok tt, record f { templates = insert id (record t { deleted = true }) f.templates })
  ]

  abbrev store_key : String → String → String → String × Fake → Fake
  store_key client_id prefix secret_hash (id, f) = record f {
    api_keys =
        insert id
          (record {
            key_id = id;
            client_id = client_id;
            secret_hash = secret_hash;
            status = "";
            revoked = false;
          })
          f.api_keys;
    keys_by_prefix = insert prefix id f.keys_by_prefix;
  }

  unfoldable pub create_api_key : String → String → String → Fake → Result Error String × Fake
  unfolding next_id
  create_api_key client_id prefix secret_hash f = elim (lookup prefix f.keys_by_prefix) [
    | some id ↦ (refuse kit "registry:invalid", f)
    | none ↦ (ok (next_id f).0, store_key client_id prefix secret_hash (next_id f))
  ]

  unfoldable pub revoke_api_key : String → String → Fake → Result Error Unit × Fake
  revoke_api_key client_id key_id f = elim (lookup key_id f.api_keys) [
    | none ↦ (refuse kit "registry:not_found", f)
    | some k ↦
        if k.client_id == client_id
        then (ok tt, record f { api_keys = insert key_id (record k { revoked = true }) f.api_keys })
        else (refuse kit "registry:not_found", f)
  ]

-- CreateClient
unfoldable pub create_client : Client → Fake → String × Fake
unfolding next_id
create_client c f =
    let (id, f') = next_id f in
    let row : Client = record c {
      id = id;
      status = if c.status == "" then "active" else c.status;
      policy = if c.policy == "" then "{}" else c.policy;
    } in
    (id, record f' { clients = insert id row f'.clients })

abbrev with_id : IntendedUse → Fake → IntendedUse × Fake
with_id iu f = if iu.id == "" then (record iu { id = (next_id f).0 }, (next_id f).1) else (iu, f)

-- the loop of SetIntendedUses, over the map built so far
unfoldable pub collect_uses : List IntendedUse → Dict IntendedUse → Fake → Dict IntendedUse × Fake
unfolding next_id
collect_uses [] m f = (m, f)
collect_uses (iu ∷ ius) m f =
    let (row, f') = with_id iu f in collect_uses ius (insert row.intended_use_id row m) f'

-- SetIntendedUses
unfoldable pub set_intended_uses : String → List IntendedUse → Fake → Fake
unfolding collect_uses
set_intended_uses client_id ius f =
    let (m, f') = collect_uses ius [] f in
    record f' { intended_uses = insert client_id m f'.intended_uses }

unfoldable seed_wrprc : String → String → String → Fake → Fake
seed_wrprc client_id iu_id raw f = record f {
  wrprcs = insert (append client_id (append "|" iu_id)) raw f.wrprcs;
}
