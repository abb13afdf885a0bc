-- ===== src/Examples/Registry.antt =====
-- The in-memory registry and the production registry over a sequence of calls.
use eudi_api_management.Base.{
  ℕ, suc, ◌<◌, ◌^◌, String, ◌≡◌, ◌≢◌, refl, inl, Option, none, some, List, [], ◌∷◌, ◌==◌,
  if◌then◌else◌, arith, eq_iff,
}
use eudi_api_management.Base.Dict.{lookup, insert}
use eudi_api_management.Base.Simulation.{trace, Agrees, Served}
use eudi_api_management.Errors.{result_error, refuse}
use eudi_api_management.Procedures.{
  Driver, scanned, Decoder, Database, invoke, call, command, query, classify, parse_envelope,
}
use eudi_api_management.Base.Results.{ok}
use eudi_api_management.Registry.{Store}
use eudi_api_management.Registry.Fake.{Fake, new_fake, next_id, create_api_key, create_client}
use eudi_api_management.Registry.Fake.Sound.{IsSound}
use eudi_api_management.Registry.Fake.Reached.{registry_invariant}
use eudi_api_management.Registry.Calls.{
  Call, gets_client, creates_client, creates_key, lists_templates, in_memory, call_store,
}
use eudi_api_management.Registry.Pg
use eudi_api_management.Registry.Pg.{Argument, text, Arguments, Rows}
use eudi_api_management.Registry.Pg.Refines.{production, Serves, trace-Agrees}
use eudi_api_management.Text.Encoding.{decode_base64}
use eudi_api_management.Text.Padded.{decode_std}
use eudi_api_management.Examples.World.{kit}
use eudi_api_management.Examples.Rows.{client}

abbrev first_id : String
first_id = "01JZXFAKE00000000000000001"

abbrev growth : List (ℕ × Call)
growth = (1, creates_client client) ∷ (2, creates_key first_id "00000000" "hash") ∷ []

abbrev grown : Fake
grown = (trace (in_memory kit) growth new_fake).1

room : suc grown.seq < 10 ^ 17
unfolding trace in_memory create_client create_api_key next_id lookup insert
room = ground arith

registry_invariant_example :
    IsSound grown
    × (lookup (next_id grown).0 grown.clients ≡ none)
    × (lookup (next_id grown).0 grown.templates ≡ none)
    × (lookup (next_id grown).0 grown.api_keys ≡ none)
registry_invariant_example = registry_invariant kit growth grown refl room

abbrev decode : Decoder
decode raw =
    if raw == "refused"
    then some (record { result = "error"; code = "registry:not_found"; content = "" })
    else some (record { result = "success"; code = ""; content = raw })

abbrev row_kinds : Rows
row_kinds = record {
  decode_key = λ content. none;
  decode_client = λ content. if content == "row" then some client else none;
  decode_uses = λ content. none;
  decode_use = λ content. none;
  decode_raw = λ content. none;
  decode_stamp = λ content. none;
  decode_template = λ content. none;
  decode_templates = λ content. if content == "no rows" then some [] else none;
  decode_id = λ content. some content;
  of_bytes = λ bytes. "";
}

-- the arguments are sent as the client id
abbrev marshalled : Arguments → Option String
marshalled ((k, text id) ∷ more) = some id
marshalled _ = none

-- a registry with the client alice, whose state is the ids of the keys that were made
abbrev held : ℕ → Store (List String)
held now = record {
  get_client_by_key_prefix = λ prefix s. (refuse kit "registry:not_found", s);
  get_client = λ id s. (if id == "alice" then ok client else refuse kit "registry:not_found", s);
  list_intended_uses = λ client_id s. (ok [], s);
  get_intended_use = λ client_id id s. (refuse kit "registry:not_found", s);
  get_wrprc_for_intended_use = λ client_id id s. (ok none, s);
  create_template = λ client_id t s. (refuse kit "registry:not_found", s);
  get_template = λ client_id id s. (refuse kit "registry:not_found", s);
  list_templates = λ client_id s. (ok [], s);
  delete_template = λ client_id id s. (refuse kit "registry:not_found", s);
  create_api_key = λ client_id prefix secret_hash s. (ok "01J9Q2", "01J9Q2" ∷ s);
  revoke_api_key = λ client_id id s. (refuse kit "registry:not_found", s);
  create_client = λ c s. (ok "01J9Q1", s);
  set_intended_uses = λ client_id ius s. (ok tt, s);
}

abbrev performed : String → String → List String → Driver × List String
performed procedure pi s =
    if procedure == "registry.create_api_key"
    then (scanned "01J9Q2", "01J9Q2" ∷ s)
    else if procedure == "registry.list_templates"
    then (scanned "no rows", s)
    else if pi == "alice"
    then (scanned "row", s)
    else (scanned "refused", s)

abbrev db : ℕ → Database Arguments (List String)
db now = record { marshal = marshalled; perform = performed }

abbrev view : List String → List String
view s = s

abbrev calls : List (ℕ × Call)
calls =
    (1, gets_client "bob")
    ∷ (2, creates_key "alice" "00000000" "hash")
    ∷ (3, lists_templates "alice")
    ∷ (4, gets_client "alice")
    ∷ []

has_code : ◌≢◌ {A = String} "registry:not_found" ""
has_code e = ground (arith, eq_iff "registry:not_found" "")

served :
    Served view
      (production kit decode row_kinds db)
      (call_store held)
      (Serves kit decode row_kinds db view held)
      calls
      []
unfolding call_store Pg.store invoke call command query classify parse_envelope result_error
    Pg.get_client Pg.create_api_key Pg.list_templates
served = (
  ("bob", refl, ("refused", _, inl refl, refl, refl, has_code, refl), refl),
  (
    ("alice", refl, ("01J9Q2", _, refl, refl, refl, refl), refl),
    (
      ("alice", refl, ("no rows", _, refl, refl, refl, refl), refl),
      (("alice", refl, ("row", _, refl, refl, refl, refl), refl), tt),
    ),
  ),
)

trace-Agrees_example :
    Agrees view
      (trace (production kit decode row_kinds db) calls [])
      (trace (call_store held) calls (view []))
trace-Agrees_example = trace-Agrees kit decode row_kinds db view held calls [] served

padded : decode_std "AQIDBA==" ≡ some (1 ∷ 2 ∷ 3 ∷ 4 ∷ [])
unfolding decode_std decode_base64
padded = refl

unpadded : decode_std "AQIDBA" ≡ none
unfolding decode_std
unpadded = refl
