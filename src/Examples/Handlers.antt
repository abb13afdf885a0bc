-- ===== src/Examples/Handlers.antt =====
-- The session and template handlers.
use eudi_api_management.Base.{
  ℕ, ◌≤◌, String, ◌≡◌, ◌≢◌, refl, ◌⊎◌, inl, inr, Bool, true, false, Option, none, some, List, [],
  ◌∷◌, all, ◌==◌, if◌then◌else◌,
}
use eudi_api_management.Base.Results.{ok}
use eudi_api_management.Registry.{Client, IntendedUse, Template, Reads}
use eudi_api_management.Registry.Fake.{Fake, reads, get_intended_use, get_template}
use eudi_api_management.Wire.Flows.{flow_to_db, flow_from_db}
use eudi_api_management.Verifier.{CreateRequest, CreateResponse, create_session}
use eudi_api_management.Routes.Web.{Net, registration_ref_fault, is_web_origin, origin_allowed}
use eudi_api_management.Routes.Prepare.{SessionRequest, prepare}
use eudi_api_management.Routes.Prepare.Authorized.{IsInScope}
use eudi_api_management.Routes.Prepare.Passed.{prepare-ok}
use eudi_api_management.Routes.Prepare.Accepted.{IsAcceptable, prepare-accepts}
use eudi_api_management.Base.{arith, eq_iff}
use eudi_api_management.Routes.Create.{SessionCreated, Creation, handle_create}
use eudi_api_management.Routes.Create.Calls.{handle_create-ok}
use eudi_api_management.Routes.Templates.{TemplateNew, TemplateView, handle_create_template}
use eudi_api_management.Routes.Templates.Outcomes.{
  IsAuthorized, IsRowFor, handle_create_template-ok,
}
use eudi_api_management.Examples.World.{kit, engine}
use eudi_api_management.Examples.Rows.{rows, client, use_row, dcql}

abbrev pub net : Net
net = record {
  parse_url = λ raw. some (record {
    scheme = "https";
    host = "rp.example";
    path = "";
    raw_query = "";
    fragment = "";
    has_user = false;
  });
  equal_fold = λ a b. a == b;
  quote = λ s. s;
  encode_query = λ q. some "{}";
  decode_object = λ raw. some [];
  new_registration_ref = λ name sub uri id.
      ok (record { name = name; sub = sub; registry_uri = uri; intended_use_id = id });
}

abbrev pub asked : SessionRequest
asked = record {
  flow = "dc_api";
  template_id = "";
  dcql_query = ("credentials", "[]") ∷ [];
  intended_use_id = "";
  webhook_url = "";
  redirect_uri = "";
  ttl_seconds = 0;
}

abbrev passed : CreateRequest
passed = record {
  client_id = "alice";
  correlation_id = "c1";
  flow = "dcapi";
  dcql_query = "{}";
  policy = "{}";
  webhook_url = "https://rp.example/hook";
  redirect_uri = "";
  registration = record {
    name = "Alice";
    sub = "LV-1";
    registry_uri = "https://registrar.example";
    intended_use_id = "age";
  };
  wrprc = none;
  expected_origins = "https://rp.example" ∷ [];
  ttl_seconds = 300;
}

prepared : prepare net (reads kit rows) "alice" dcql "c1" 300 asked ≡ ok passed
unfolding prepare flow_to_db eudi_api_management.Registry.Fake.get_client
    eudi_api_management.Base.Dict.lookup get_intended_use
    eudi_api_management.Scope.check_within_scope
    eudi_api_management.Registry.Fake.get_wrprc_for_intended_use
prepared = refl

prepare-ok_example :
    (client : Client) × ((reads kit rows).get_client "alice" ≡ ok client)
    × (◌≡◌ {A = String} "alice" "alice")
    × (flow_to_db "dc_api" ≡ some "dcapi")
    × IsInScope net (reads kit rows) "alice" dcql "c1" 300 passed
    × (passed.expected_origins ≡ (if "dcapi" == "dcapi" then client.allowed_origins else []))
    × (◌≢◌ {A = String} "dcapi" "dcapi"
        ⊎ ((client.allowed_origins ≢ []) × (all (is_web_origin net) client.allowed_origins ≡ true)))
    × (◌≢◌ {A = String} "dcapi" "same_device" ⊎ ◌≢◌ {A = String} "" "")
    × (◌≡◌ {A = String} "" "" ⊎ (origin_allowed net "" client.allowed_origins ≡ true))
    × (◌≡◌ {A = String} "" "" ⊎ (origin_allowed net "" client.allowed_origins ≡ true))
    × (◌≡◌ {A = ℕ} 300 300 ⊎ ((60 ≤ 0) × (0 ≤ 3600) × ◌≡◌ {A = ℕ} 300 0))
prepare-ok_example = prepare-ok net (reads kit rows) "alice" dcql "c1" 300 asked passed prepared

abbrev creation : Creation
creation = handle_create net (reads kit rows) "alice" dcql "c1" 300 engine "token" "c" asked

abbrev pub answered : SessionCreated
answered = record {
  session_id = "s9";
  state = "pending";
  wallet_url = "https://wallet.example";
  qr_payload = "";
  dc_api_request = none;
  dc_api_response_uri = "";
  expires_at = 0;
}

replied : creation.reply ≡ ok answered
unfolding handle_create flow_to_db eudi_api_management.Registry.Fake.get_client
    eudi_api_management.Base.Dict.lookup get_intended_use
    eudi_api_management.Scope.check_within_scope
    eudi_api_management.Registry.Fake.get_wrprc_for_intended_use create_session
replied = refl

handle_create-ok_example :
    (out : CreateRequest) × (r : CreateResponse) × (prepare net
        (reads kit rows)
        "alice"
        dcql
        "c1"
        300
        asked
      ≡ ok out)
    × ((create_session engine "token" "c" out).outcome ≡ ok r)
    × (creation.sent ≡ (create_session engine "token" "c" out).sent)
    × ("s9" ≡ r.session_id)
    × (◌≡◌ {A = String} "pending" "pending")
    × ("" ≡ (if out.flow == "dcapi" then r.response_uri else ""))
    × (creation.created_flows ≡ flow_from_db out.flow ∷ [])
handle_create-ok_example =
    handle_create-ok net (reads kit rows) "alice" dcql "c1" 300 engine "token" "c" asked answered
      replied

abbrev wanted : TemplateNew
wanted = record {
  name = "Over 18";
  description = "";
  intended_use_id = "age";
  dcql_query = ("credentials", "[]") ∷ [];
}

abbrev shown : TemplateView
shown = record { body = wanted; template_id = "01JZXFAKE00000000000000001"; created_at = 7 }

template_made : (handle_create_template kit net dcql 7 "alice" wanted rows).reply ≡ ok shown
unfolding handle_create_template get_intended_use eudi_api_management.Base.Dict.lookup
    eudi_api_management.Scope.check_within_scope eudi_api_management.Registry.Fake.create_template
template_made = refl

handle_create_template-ok_example :
    let out = handle_create_template kit net dcql 7 "alice" wanted rows in
    (raw : String) × (row : Template) × IsAuthorized kit net dcql 7 "alice" wanted rows raw
    × (get_template kit out.registry "alice" shown.template_id ≡ ok row)
    × IsRowFor kit net dcql 7 "alice" wanted rows raw shown row
    × (shown.body ≡ wanted)
    × (out.scope_denials ≡ 0)
handle_create_template-ok_example =
    handle_create_template-ok kit net dcql 7 "alice" wanted rows shown template_made

-- the rejected clause is told without the validator's prefix
named_clause :
    registration_ref_fault
      (record { message = "rpcert: reference: client id"; is_registration_ref = true })
    ≡ "client id"
unfolding registration_ref_fault eudi_api_management.Routes.Web.last_clause
named_clause = refl

dc_api_flow : flow_to_db "dc_api" ≡ some "dcapi"
unfolding flow_to_db
dc_api_flow = refl

-- the request in full, for the client's only intended use
acceptable : IsAcceptable net (reads kit rows) "alice" dcql "c1" 300 asked passed
unfolding flow_to_db eudi_api_management.Registry.Fake.get_client
    eudi_api_management.Base.Dict.lookup get_intended_use
    eudi_api_management.Registry.Fake.get_wrprc_for_intended_use
    eudi_api_management.Scope.check_within_scope is_web_origin
acceptable = record {
  db_flow = "dcapi";
  flow = refl;
  ttl = inl refl;
  client = client;
  own_row = refl;
  target = record { raw_query = "{}"; intended_use_id = "age" };
  presentation = inl (record {
    no_template = refl;
    query = λ e. cc;
    encoded = refl;
    chosen = inr (refl, (use_row, refl, refl));
  });
  iu = use_row;
  use_row = refl;
  active = refl;
  query = "{}";
  scope = refl;
  origins = inr (λ e. cc, refl);
  redirect_given = inl (λ e. ground (arith, eq_iff "dcapi" "same_device"));
  redirect = inl refl;
  webhook = inl refl;
  wrprc = none;
  wrprc_row = refl;
  reg = passed.registration;
  identity = refl;
  passed = refl;
}

prepare-accepts_example : prepare net (reads kit rows) "alice" dcql "c1" 300 asked ≡ ok passed
prepare-accepts_example =
    prepare-accepts net (reads kit rows) "alice" dcql "c1" 300 asked passed acceptable
