-- ===== src/Examples/Calls.antt =====
-- Stored procedures, the scope check and the engine client.
use eudi_api_management.Base.{ℕ, String, ◌≡◌, refl, ◌⊎◌, false, none, some, [], ◌∷◌}
use eudi_api_management.Base.Results.{ok, err}
use eudi_api_management.Errors.{Problem, relayed}
use eudi_api_management.Scope.{check_within_scope}
use eudi_api_management.Verifier.{Engine, CreateRequest, answer, unavailable, is_ok, create_session}
use eudi_api_management.Verifier.Failures.{posted, create_session-err}
use eudi_api_management.Examples.World.{engine}
use eudi_api_management.Examples.Rows.{use_row, dcql}

in_scope : check_within_scope dcql "{}" (use_row ∷ []) "age" ≡ ok "{}"
unfolding check_within_scope
in_scope = refl

abbrev request : CreateRequest
request = record {
  client_id = "alice";
  correlation_id = "c1";
  flow = "cross_device";
  dcql_query = "{}";
  policy = "{}";
  webhook_url = "";
  redirect_uri = "";
  registration = record {
    name = "Alice";
    sub = "LV-1";
    registry_uri = "https://registrar.example";
    intended_use_id = "age";
  };
  wrprc = none;
  expected_origins = [];
  ttl_seconds = 300;
}

abbrev down : Engine
down = record engine { send = λ req. answer 503 "overloaded" }

unanswered : (create_session down "token" "c" request).outcome ≡ err unavailable
unfolding create_session
unanswered = refl

create_session-err_example :
    (unavailable ≡ unavailable)
    ⊎ ((status : ℕ) × (text : String) × (problem : Problem) × (its_status : ℕ) × (down.send
            (posted down "token" "c" request "request")
          ≡ answer status text)
        × (is_ok status ≡ false)
        × (down.parse_problem text ≡ some (problem, its_status))
        × (unavailable ≡ relayed problem its_status))
create_session-err_example =
    create_session-err down "token" "c" request "request" unavailable refl refl unanswered
