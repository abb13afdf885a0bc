-- ===== src/Examples/Service.antt =====
-- Whole requests of the service.
use eudi_api_management.Base.{
  ℕ, ◌/◌, String, ◌≡◌, ◌≢◌, refl, ◌⊎◌, Bool, true, false, Option, none, some, List, [], ◌∷◌, ◌++◌,
  ◌==◌, if◌then◌else◌, leb, suc,
}
use eudi_api_management.Base.Results.{ok, err}
use eudi_api_management.Errors.{fault, unauthorized, refuse}
use eudi_api_management.Text.{append}
use eudi_api_management.ApiKeys.Verifier.{new_verifier}
use eudi_api_management.Wire.{VerificationResult}
use eudi_api_management.SessionDb.{Session, Fake}
use eudi_api_management.Registry.{Reads}
use eudi_api_management.Registry.Fake.{reads}
use eudi_api_management.Results.{value}
use eudi_api_management.Valkey.{getdel}
use eudi_api_management.Config.{second}
use eudi_api_management.Verifier.{CreateRequest, CreateResponse, create_session}
use eudi_api_management.Routes.Prepare.{SessionRequest, prepare}
use eudi_api_management.Routes.Create.{SessionCreated, Creation}
use eudi_api_management.Routes.Poll.{SessionView, Stores, is_redeemed}
use eudi_api_management.Routes.RateLimits.{Limiter, Counting}
use eudi_api_management.Routes.Router.{Middleware, Framework, Documented}
use eudi_api_management.Routes.Router.Gate.{
  Caller, Memory, Outside, entry, client_count, ip_count, pass,
}
use eudi_api_management.Routes.Served.{
  Service, serve_create, serve_poll, serve_cancel, no_creation, enter,
}
use eudi_api_management.Routes.Served.EndToEnd.{
  HoldsKey, turned_away, serve_create-ok, serve_poll-releases, refused-nothing,
}
use eudi_api_management.Base.Dict.{lookup}
use eudi_api_management.Base.{ap, ◌∙◌, some-inj, arith, eq_iff}
use eudi_api_management.SessionDb.Isolation.{IsForeign}
use eudi_api_management.Routes.Served.Foreign.{let_through, serve-foreign}
use eudi_api_management.Routes.Served.Cancelled.{
  IsCancellable, cancelled_at, IsDeletion, serve_cancel-commits,
}
use eudi_api_management.Examples.World.{session, kit, codec, keys, no_faults, engine, sessions}
use eudi_api_management.Examples.Keys.{derive, digest, minted}
use eudi_api_management.Examples.Rows.{rows, dcql}
use eudi_api_management.Examples.Entry.{key_record, dummy}
use eudi_api_management.Examples.Handlers.{net, asked, answered}
use eudi_api_management.Examples.Sessions.{store, stores, view}
use eudi_api_management.Examples.Settings.{config}

-- a group is its path and its chain
abbrev Group : Type 0
Group = String × List Middleware

abbrev groups : Framework Group
groups = record {
  root = ("", []);
  group = λ p g. (append g.0 p, g.1);
  with_middleware = λ ms g. (g.0, g.1 ++ ms);
  path = λ g. g.0;
  chain = λ g. g.1;
}

grouping : Documented groups
grouping = record {
  root_path = refl;
  root_chain = refl;
  group_path = λ p g. refl;
  group_chain = λ p g. refl;
  middleware_path = λ ms g. refl;
  middleware_chain = λ ms g. refl;
}

abbrev registry : Reads
registry = record (reads kit rows) {
  get_client_by_key_prefix =
      λ prefix. if prefix == "00000000" then ok key_record else refuse kit "registry:not_found";
}

-- one counter for every key, of a window that does not end
abbrev counting : Counting ℕ
counting limiter k now n = (leb (suc n) limiter.config.limit, suc n)

abbrev outside : Outside ℕ
outside = record {
  sum256 = digest;
  derive = derive;
  kit = kit;
  dummy = dummy;
  registry = registry;
  counting = counting;
  too_many = fault "too many requests";
}

abbrev service : Service ℕ Fake String
service = record {
  outside = outside;
  net = net;
  dcql = dcql;
  engine = engine;
  token = "token";
  store = store;
  codec = codec;
  keys = keys;
  faults = no_faults;
}

abbrev caller : Caller
caller = record { api_key = minted.display_key; ip = "192.0.2.1" }

abbrev memory : Memory ℕ
memory = record { verifier = new_verifier; counters = 0 }

created : (serve_create groups config service caller 10 "c1" "c" asked memory).0.reply ≡ ok answered
unfolding serve_create enter pass eudi_api_management.Routes.Auth.api_key_auth
    eudi_api_management.ApiKeys.parse eudi_api_management.ApiKeys.Verifier.verify
    eudi_api_management.Base.Dict.lookup eudi_api_management.ApiKeys.Phc.decode_phc
    eudi_api_management.Text.trim_left eudi_api_management.Text.is_space
    eudi_api_management.Routes.RateLimits.session_key_limiter
    eudi_api_management.Routes.RateLimits.session_ip_limiter
    eudi_api_management.Routes.Create.handle_create eudi_api_management.Wire.Flows.flow_to_db
    eudi_api_management.Registry.Fake.get_client eudi_api_management.Registry.Fake.get_intended_use
    eudi_api_management.Scope.check_within_scope
    eudi_api_management.Registry.Fake.get_wrprc_for_intended_use create_session
created = refl

served_poll :
    (serve_poll groups config service caller 10 "s1" (some "code") stores memory).0.0 ≡ ok view
unfolding serve_poll enter pass eudi_api_management.Routes.Auth.api_key_auth
    eudi_api_management.ApiKeys.parse eudi_api_management.ApiKeys.Verifier.verify
    eudi_api_management.Base.Dict.lookup eudi_api_management.ApiKeys.Phc.decode_phc
    eudi_api_management.Text.trim_left eudi_api_management.Text.is_space
    eudi_api_management.Routes.Poll.get_session eudi_api_management.SessionDb.get_for_client
    eudi_api_management.SessionDb.get_report_for_client eudi_api_management.Base.Dict.insert
    eudi_api_management.SessionDb.lazily_expire eudi_api_management.SessionDb.is_due
    eudi_api_management.Results.map_report eudi_api_management.SessionDb.mark_code_redeemed
    eudi_api_management.Results.fetch eudi_api_management.Valkey.get_payload getdel
served_poll = refl

abbrev stranger : Caller
stranger = record caller { api_key = "nonsense" }

turned : (entry outside stranger 10 memory).client ≡ err unauthorized
unfolding eudi_api_management.Routes.Auth.api_key_auth eudi_api_management.ApiKeys.parse
    eudi_api_management.ApiKeys.Verifier.verify eudi_api_management.Base.Dict.lookup
    eudi_api_management.ApiKeys.Phc.decode_phc eudi_api_management.Text.trim_left
    eudi_api_management.Text.is_space
turned = refl

serve_create-ok_example :
    (client_id : String) × HoldsKey groups grouping config service caller 10 memory client_id
    × ((client_count outside caller 10 config memory client_id).0 ≡ true)
    × ((ip_count outside caller 10 config memory client_id).0 ≡ true)
    × ((passed : CreateRequest) × (r : CreateResponse) × (prepare net registry client_id dcql "c1"
            (config.session_default_ttl / second)
            asked
          ≡ ok passed)
        × (passed.client_id ≡ client_id)
        × ((create_session engine "token" "c" passed).outcome ≡ ok r)
        × (answered.session_id ≡ r.session_id))
serve_create-ok_example =
    serve_create-ok groups grouping config service caller 10 memory "c1" "c" asked answered created

serve_poll-releases_example :
    (client_id : String) × HoldsKey groups grouping config service caller 10 memory client_id
    × ((s : Session) × ((store.get_for_client client_id "s1" sessions).0 ≡ ok s)
        × (s.status ≡ "verified")
        × ((s.flow ≢ "same_device")
            ⊎ (is_redeemed s.code_redeemed_at ≡ true)
            ⊎ ((c : String) × (some "code" ≡ some c)
                × ((getdel no_faults 10 c stores.valkey).0 ≡ value s.id))))
serve_poll-releases_example =
    serve_poll-releases groups grouping config service caller 10 memory "s1" (some "code") stores
      view (record { credentials = [] }) served_poll refl

refused-nothing_example :
    ((correlation_id inbound_id : String) (body : SessionRequest)
      → serve_create groups config service stranger 10 correlation_id inbound_id body memory ≡ (
        no_creation groups config service stranger 10 unauthorized,
        turned_away groups grouping config service stranger 10 memory,
      ))
    × ((id : String) (code : Option String) (w : Stores Fake)
        → serve_poll groups config service stranger 10 id code w memory
          ≡ ((err unauthorized, w), turned_away groups grouping config service stranger 10 memory))
    × ((correlation_id id : String) (db : Fake)
        → serve_cancel groups config service stranger 10 correlation_id id db memory ≡ (
          ((err unauthorized, db), none),
          turned_away groups grouping config service stranger 10 memory,
        ))
refused-nothing_example =
    refused-nothing groups grouping config service stranger 10 memory unauthorized turned

-- a session of another client
abbrev bobs : Session
bobs = record session { id = "s3"; client_id = "bob" }

abbrev shared : Stores Fake
shared = record stores { db = record sessions { sessions = ("s1", session) ∷ ("s3", bobs) ∷ [] } }

let_in : (entry outside caller 10 memory).client ≡ ok "alice"
unfolding eudi_api_management.Routes.Auth.api_key_auth eudi_api_management.ApiKeys.parse
    eudi_api_management.ApiKeys.Verifier.verify lookup eudi_api_management.ApiKeys.Phc.decode_phc
    eudi_api_management.Text.trim_left eudi_api_management.Text.is_space
let_in = refl

not_alices : IsForeign "alice" "s3" shared.db
unfolding lookup
not_alices s found e =
    let own : ◌≡◌ {A = String} "bob" "alice" =
      ap (λ (x : Session). x.client_id) (some-inj found) ∙ e in
    ground (arith, eq_iff "bob" "alice")

serve-foreign_example :
    (serve_poll groups config service caller 10 "s3" (some "code") shared memory ≡ (
      (refuse kit "session:not_found", shared),
      let_through groups grouping config service caller 10 memory,
    ))
    × (serve_cancel groups config service caller 10 "c1" "s3" shared.db memory ≡ (
      ((refuse kit "session:not_found", shared.db), none),
      let_through groups grouping config service caller 10 memory,
    ))
serve-foreign_example =
    serve-foreign groups grouping config service caller 10 memory "alice" "s3" (some "code") "c1"
      shared refl let_in not_alices

-- a session of alice that waits for the wallet
abbrev waiting : Session
waiting = record session { id = "s4"; status = "pending"; expires_at = 1000 }

abbrev waited : Fake
waited = record sessions { sessions = ("s1", session) ∷ ("s4", waiting) ∷ [] }

cancelled : (serve_cancel groups config service caller 10 "c1" "s4" waited memory).0.0.0 ≡ ok tt
unfolding serve_cancel enter pass eudi_api_management.Routes.Auth.api_key_auth
    eudi_api_management.ApiKeys.parse eudi_api_management.ApiKeys.Verifier.verify lookup
    eudi_api_management.ApiKeys.Phc.decode_phc eudi_api_management.Text.trim_left
    eudi_api_management.Text.is_space eudi_api_management.Routes.Poll.cancel_session
    eudi_api_management.SessionDb.cancel eudi_api_management.SessionDb.lazily_expire
    eudi_api_management.SessionDb.is_due eudi_api_management.Base.Dict.insert
cancelled = refl

serve_cancel-commits_example :
    let done = (serve_cancel groups config service caller 10 "c1" "s4" waited memory).0 in
    (client_id : String) × HoldsKey groups grouping config service caller 10 memory client_id
    × ((s : Session) × IsCancellable 10 client_id "s4" waited s
        × (done.0.1 ≡ cancelled_at 10 "s4" s waited))
    × IsDeletion groups grouping config service caller 10 memory "s4" done.1
serve_cancel-commits_example =
    serve_cancel-commits groups grouping config service caller 10 memory "c1" "s4" waited refl
      cancelled
