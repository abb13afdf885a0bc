-- ===== src/Registry/Pg/Refines.antt =====
-- The production registry gives its callers what the procedures of the database answer.
use eudi_api_management.Base.{
  ℕ, String, ◌≡◌, refl, List, [], ◌∷◌, ◌==◌, Option, none, some, false, if◌then◌else◌,
}
use eudi_api_management.Base.Results.{Result, ok, err}
use eudi_api_management.Base.Simulation.{trace, Agrees, Served, tagged, tagged-Agrees, simulates}
use eudi_api_management.Errors.{Error, Kit}
use eudi_api_management.Text.Padded.{decode_std}
use eudi_api_management.Procedures.{Driver, Decoder, Database, command, query, invoke}
use eudi_api_management.Procedures.Protocol.{
  Conforms, IsAnything, IsRowOf, Answers, command-Answers, query-Answers, invoke-Conforms,
}
use eudi_api_management.Registry.{Store, Template}
use eudi_api_management.Registry.Calls.{
  Call, resolves, gets_client, lists_uses, lists_templates, gets_use, gets_wrprc, gets_template,
  deletes_template, revokes_key, creates_template, creates_key, creates_client, sets_uses, Outcome,
  key, client, intended_use, intended_uses, wrprc, template, templates, new_id, done, call_store,
}
use eudi_api_management.Registry.Pg.{
  Argument, text, json, texts, uses, Arguments, Rows, bytes_or, wrprc_of, stamp, read_wrprc,
}
use eudi_api_management.Registry.Pg

-- The data of a WRPRC reply: the base64 of its bytes, or nothing where there is none.
abbrev IsWrprc : Rows → String → Option String → Type 0
IsWrprc rows content none = rows.decode_raw content ≡ some ""
IsWrprc rows content (some w) =
    (encoded : String) × (bytes : List ℕ) × (rows.decode_raw content ≡ some encoded)
    × ((encoded == "") ≡ false)
    × (decode_std encoded ≡ some bytes)
    × (w ≡ rows.of_bytes bytes)

-- The data of a reply to CreateTemplate: the id and the instant of the row.
abbrev IsStamp : Rows → Template → String → Template → Type 0
IsStamp rows t content row =
    (id : String) × (at : ℕ) × (rows.decode_stamp content ≡ some (id, at))
    × (row ≡ record t { id = id; created_at = at })

module _ (kit : Kit) (decode : Decoder) (rows : Rows) where
  read_wrprc-Answers :
      (reply : Driver) (outcome : Result Error (Option String))
      → Answers kit decode (IsWrprc rows) reply outcome
      → read_wrprc kit decode rows reply ≡ outcome
  unfolding wrprc_of
  read_wrprc-Answers reply (ok none) (raw, e, sent, decoded, good, row) =
      rw (query-Answers kit decode rows.decode_raw reply (ok "") (raw, e, sent, decoded, good, row))
        refl
  read_wrprc-Answers reply (ok (some w))
        (raw, e, sent, decoded, good, (encoded, bytes, row, full, plain, same)) =
      rw
        (query-Answers kit decode rows.decode_raw reply (ok encoded)
          (raw, e, sent, decoded, good, row))
        (rw (full, plain, same) refl)
  read_wrprc-Answers reply (err f) h =
      rw (query-Answers kit decode rows.decode_raw reply (err f) h) refl

  stamp-Answers :
      (t : Template) (reply : Driver) (outcome : Result Error Template)
      → Answers kit decode (IsStamp rows t) reply outcome
      → query (λ content. stamp t (rows.decode_stamp content)) kit decode reply ≡ outcome
  stamp-Answers t reply (ok row) (raw, e, sent, decoded, good, (id, at, read, same)) =
      query-Answers kit decode (λ content. stamp t (rows.decode_stamp content)) reply (ok row)
        (raw, e, sent, decoded, good, rw (read, same) refl)
  stamp-Answers t reply (err f) h =
      query-Answers kit decode (λ content. stamp t (rows.decode_stamp content)) reply (err f) h

-- The production registry over the database as it is at each instant.
abbrev pub production :
    {S : Type 0} → Kit → Decoder → Rows → (ℕ → Database Arguments S) → ℕ × Call → S → Outcome × S
production kit decode rows db = call_store (λ now. Pg.store kit decode rows (db now))

module _ {S F : Type 0} (kit : Kit) (decode : Decoder) (rows : Rows) (db : ℕ → Database Arguments S)
    (view : S → F) (reference : ℕ → Store F) where
  abbrev Answered :
      {R : Type 0}
      → (String → R → Type 0)
      → ℕ
      → String
      → Arguments
      → S
      → Result Error R × F
      → Type 0
  Answered IsRow now procedure arguments s =
      Conforms kit decode IsRow (db now) view procedure arguments s

  -- The procedure of a call answers, from this state, what the reference registry answers.
  abbrev pub Serves : ℕ × Call → S → Type 0
  Serves (now, resolves prefix) s =
      Answered (IsRowOf rows.decode_key) now "registry.get_client_by_key_prefix"
        (("prefix", text prefix) ∷ []) s ((reference now).get_client_by_key_prefix prefix (view s))
  Serves (now, gets_client id) s =
      Answered (IsRowOf rows.decode_client) now "registry.get_client" (("client_id", text id) ∷ [])
        s ((reference now).get_client id (view s))
  Serves (now, lists_uses client_id) s =
      Answered (IsRowOf rows.decode_uses) now "registry.list_intended_uses"
        (("client_id", text client_id) ∷ []) s
        ((reference now).list_intended_uses client_id (view s))
  Serves (now, lists_templates client_id) s =
      Answered (IsRowOf rows.decode_templates) now "registry.list_templates"
        (("client_id", text client_id) ∷ []) s ((reference now).list_templates client_id (view s))
  Serves (now, gets_use client_id id) s =
      Answered (IsRowOf rows.decode_use) now "registry.get_intended_use"
        (("client_id", text client_id) ∷ ("intended_use_id", text id) ∷ []) s
        ((reference now).get_intended_use client_id id (view s))
  Serves (now, gets_wrprc client_id id) s =
      Answered (IsWrprc rows) now "registry.get_wrprc_for_intended_use"
        (("client_id", text client_id) ∷ ("intended_use_id", text id) ∷ []) s
        ((reference now).get_wrprc_for_intended_use client_id id (view s))
  Serves (now, gets_template client_id id) s =
      Answered (IsRowOf rows.decode_template) now "registry.get_template"
        (("client_id", text client_id) ∷ ("template_id", text id) ∷ []) s
        ((reference now).get_template client_id id (view s))
  Serves (now, deletes_template client_id id) s =
      Answered IsAnything now "registry.delete_template"
        (("client_id", text client_id) ∷ ("template_id", text id) ∷ []) s
        ((reference now).delete_template client_id id (view s))
  Serves (now, revokes_key client_id id) s =
      Answered IsAnything now "registry.revoke_api_key"
        (("client_id", text client_id) ∷ ("key_id", text id) ∷ []) s
        ((reference now).revoke_api_key client_id id (view s))
  Serves (now, creates_template client_id t) s =
      Answered (IsStamp rows t) now "registry.create_template"
        (("client_id", text client_id)
          ∷ ("name", text t.name)
          ∷ ("description", text t.description)
          ∷ ("intended_use_id", text t.intended_use_id)
          ∷ ("dcql_query", json t.dcql_query)
          ∷ [])
        s ((reference now).create_template client_id t (view s))
  Serves (now, creates_key client_id prefix secret_hash) s =
      Answered (IsRowOf rows.decode_id) now "registry.create_api_key"
        (("client_id", text client_id)
          ∷ ("prefix", text prefix)
          ∷ ("secret_hash", text secret_hash)
          ∷ [])
        s ((reference now).create_api_key client_id prefix secret_hash (view s))
  Serves (now, creates_client c) s =
      Answered (IsRowOf rows.decode_id) now "registry.create_client"
        (("name", text c.name)
          ∷ ("registry_uri", text c.registry_uri)
          ∷ ("client_identifier", text c.client_identifier)
          ∷ ("default_webhook_url", text c.default_webhook)
          ∷ ("allowed_origins", texts c.allowed_origins)
          ∷ ("policy", json (if c.policy == "" then "{}" else c.policy))
          ∷ [])
        s ((reference now).create_client c (view s))
  Serves (now, sets_uses client_id ius) s =
      Answered IsAnything now "registry.set_intended_uses"
        (("client_id", text client_id) ∷ ("intended_uses", uses ius) ∷ []) s
        ((reference now).set_intended_uses client_id ius (view s))

  module _ {R : Type 0} (tag : Result Error R → Outcome) (now : ℕ) (procedure : String)
      (arguments : Arguments) (s : S) (outcome : Result Error R × F) where
    query-Agrees :
        (decode_row : String → Option R)
        → Answered (IsRowOf decode_row) now procedure arguments s outcome
        → Agrees view
            (tagged tag (invoke (query decode_row kit decode) (db now) procedure arguments s))
            (tagged tag outcome)
    query-Agrees decode_row h = tagged-Agrees view tag _ _ (
        invoke-Conforms kit decode (IsRowOf decode_row) (query decode_row kit decode)
          (query-Answers kit decode decode_row) (db now) view procedure arguments s outcome h)

  command-Agrees :
      (now : ℕ) (procedure : String) (arguments : Arguments) (s : S)
      (outcome : Result Error (Unit {0}) × F)
      → Answered IsAnything now procedure arguments s outcome
      → Agrees view
          (tagged done (invoke (command kit decode) (db now) procedure arguments s))
          (tagged done outcome)
  command-Agrees now procedure arguments s outcome h = tagged-Agrees view done _ _ (
      invoke-Conforms kit decode IsAnything (command kit decode) (command-Answers kit decode)
        (db now) view procedure arguments s outcome h)

  -- One call that is served answers as the reference registry does.
  production-Agrees :
      (c : ℕ × Call) (s : S)
      → Serves c s
      → Agrees view (production kit decode rows db c s) (call_store reference c (view s))
  unfolding call_store Pg.store Pg.get_client_by_key_prefix Pg.get_client Pg.list_intended_uses
      Pg.list_templates Pg.get_intended_use Pg.get_wrprc_for_intended_use Pg.get_template
      Pg.delete_template Pg.revoke_api_key Pg.create_template Pg.create_api_key Pg.create_client
      Pg.set_intended_uses
  production-Agrees (now, resolves prefix) s h = query-Agrees key now _ _ s _ rows.decode_key h
  production-Agrees (now, gets_client id) s h = query-Agrees client now _ _ s _ rows.decode_client h
  production-Agrees (now, lists_uses client_id) s h =
      query-Agrees intended_uses now _ _ s _ rows.decode_uses h
  production-Agrees (now, lists_templates client_id) s h =
      query-Agrees templates now _ _ s _ rows.decode_templates h
  production-Agrees (now, gets_use client_id id) s h =
      query-Agrees intended_use now _ _ s _ rows.decode_use h
  production-Agrees (now, gets_wrprc client_id id) s h = tagged-Agrees view wrprc _ _ (
      invoke-Conforms kit decode (IsWrprc rows) (read_wrprc kit decode rows)
        (read_wrprc-Answers kit decode rows) (db now) view _ _ s _ h)
  production-Agrees (now, gets_template client_id id) s h =
      query-Agrees template now _ _ s _ rows.decode_template h
  production-Agrees (now, deletes_template client_id id) s h = command-Agrees now _ _ s _ h
  production-Agrees (now, revokes_key client_id id) s h = command-Agrees now _ _ s _ h
  production-Agrees (now, creates_template client_id t) s h = tagged-Agrees view template _ _ (
      invoke-Conforms kit decode (IsStamp rows t)
        (query (λ content. stamp t (rows.decode_stamp content)) kit decode)
        (stamp-Answers kit decode rows t) (db now) view _ _ s _ h)
  production-Agrees (now, creates_key client_id prefix secret_hash) s h =
      query-Agrees new_id now _ _ s _ rows.decode_id h
  production-Agrees (now, creates_client c) s h = query-Agrees new_id now _ _ s _ rows.decode_id h
  production-Agrees (now, sets_uses client_id ius) s h = command-Agrees now _ _ s _ h

  -- Let any registry stand for what the procedures of the database do: its state is a view of the
  -- database, and at each instant each call has an outcome in it, a row or the error of a result code.
  -- If the database serves every call of a sequence so, which is that the procedure of the call with
  -- its arguments replies that outcome in the envelope protocol, then the production registry gives
  -- its callers these outcomes, over the whole sequence, and leaves the database in the state seen as
  -- the registry's last. The sequence may hold calls of all 13 methods of `Store`.
  pub trace-Agrees :
      (cs : List (ℕ × Call)) (s : S)
      → Served view (production kit decode rows db) (call_store reference) Serves cs s
      → Agrees view
          (trace (production kit decode rows db) cs s)
          (trace (call_store reference) cs (view s))
  trace-Agrees cs s h =
      simulates view (production kit decode rows db) (call_store reference) Serves production-Agrees
        cs s h
