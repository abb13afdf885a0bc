-- ===== src/Examples/Sessions.antt =====
-- The session store, polling and cancellation.
use eudi_api_management.Base.{
  ℕ, String, ◌≡◌, ◌≢◌, refl, ◌⊎◌, Bool, true, false, Option, none, some, List, [], ◌∷◌, ap, ◌∙◌,
  some-inj, eq_iff, arith,
}
use eudi_api_management.Base.Results.{ok}
use eudi_api_management.Base.Dict.{lookup}
use eudi_api_management.SessionDb.{
  Session, ExpiredSession, Fake, Store, is_open, get_for_client, get_report_for_client,
  mark_code_redeemed, lazily_expire, is_due,
}
use eudi_api_management.SessionDb.Expire.{fake_store, expire_due}
use eudi_api_management.SessionDb.Calls.{Call, cancels, run}
use eudi_api_management.SessionDb.Lifecycle.{run-terminal}
use eudi_api_management.SessionDb.Isolation.{mark_code_redeemed-sticky}
use eudi_api_management.Results.{value, nil}
use eudi_api_management.Valkey.{getdel}
use eudi_api_management.Routes.Poll.{SessionView, Stores, get_session, redeem_code}
use eudi_api_management.Routes.Poll.Release.{redeem_code-single_use}
use eudi_api_management.Examples.World.{
  kit, codec, keys, no_faults, session, sessions, overdue, cache,
}

abbrev pub store : Store Fake
store = fake_store kit 10

abbrev pub stores : Stores Fake
stores = record { db = sessions; valkey = cache }

abbrev pub view : SessionView
view = record {
  session_id = "s1";
  state = "verified";
  created_at = 1;
  completed_at = some 5;
  report = none;
  failure = none;
  result = some (record { credentials = [] });
}

-- a poll with the right code
polled : (get_session store codec keys no_faults 10 "alice" "s1" (some "code") stores).0 ≡ ok view
unfolding get_session get_for_client lookup get_report_for_client
    eudi_api_management.Base.Dict.insert lazily_expire is_due eudi_api_management.Results.map_report
    getdel mark_code_redeemed eudi_api_management.Results.fetch
    eudi_api_management.Valkey.get_payload
polled = refl

redeem_code-single_use_example :
    (getdel no_faults 10 "code"
      (redeem_code store codec keys no_faults 10 "alice" session "s1"
        (some "code")
        stores).1.valkey).0
    ≡ nil
redeem_code-single_use_example =
    redeem_code-single_use store codec keys no_faults 10 (λ n. refl) "alice" session "s1" "code"
      stores

run-terminal_example :
    (t : Session) × (lookup "s1" (run kit sessions ((10, cancels "alice" "s1") ∷ [])).sessions
      ≡ some t)
    × (t.status ≡ "verified")
unfolding lookup is_open
run-terminal_example =
    run-terminal kit sessions ((10, cancels "alice" "s1") ∷ []) "s1" session refl refl

redeemed : (mark_code_redeemed kit 10 "alice" "s1" sessions).0 ≡ ok tt
unfolding mark_code_redeemed lookup
redeemed = refl

mark_code_redeemed-sticky_example :
    (t : ℕ) × ((cs : List (ℕ × Call))
      → (s : Session) × (lookup "s1"
            (run kit (mark_code_redeemed kit 10 "alice" "s1" sessions).1 cs).sessions
          ≡ some s)
        × (s.code_redeemed_at ≡ some t))
mark_code_redeemed-sticky_example = mark_code_redeemed-sticky kit 10 "alice" "s1" sessions redeemed

abbrev late : Fake
late = record sessions { sessions = ("s1", session) ∷ ("s2", overdue) ∷ [] }

abbrev swept : List ExpiredSession
swept =
    record {
      id = "s2";
      client_id = "alice";
      webhook_url = "https://rp.example/hook";
      correlation_id = "c1";
    }
    ∷ []

sweeps_overdue : (expire_due 10 2 late).0 ≡ ok swept
unfolding expire_due lookup is_due
sweeps_overdue = refl
