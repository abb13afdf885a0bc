-- ===== src/Examples/Database.antt =====
-- The production session store over a database of three procedures.
use eudi_api_management.Base.{
  ℕ, String, ◌≡◌, ◌≢◌, refl, inl, Option, none, some, List, [], ◌∷◌, ◌==◌, if◌then◌else◌, arith,
  eq_iff,
}
use eudi_api_management.Base.Dict.{lookup}
use eudi_api_management.Base.Simulation.{trace, Agrees, Served}
use eudi_api_management.Procedures.{
  Driver, scanned, Decoder, Database, invoke, call, command, query, classify, parse_envelope,
}
use eudi_api_management.SessionDb
use eudi_api_management.SessionDb.{Session, Fake}
use eudi_api_management.SessionDb.Calls.{Call, gets, cancels, call_store}
use eudi_api_management.SessionDb.Pg
use eudi_api_management.SessionDb.Pg.{Argument, text, Arguments, Rows, proc_cancel_session}
use eudi_api_management.SessionDb.Pg.Refines.{in_memory, Serves, production, trace-refines}
use eudi_api_management.Errors.{result_error}
use eudi_api_management.Examples.World.{kit, session, sessions}

abbrev open_session : Session
open_session = record session { id = "s4"; status = "pending" }

abbrev before : Fake
before = record sessions { sessions = ("s1", session) ∷ ("s4", open_session) ∷ [] }

abbrev cancelled : Session
cancelled = record open_session { status = "cancelled"; updated_at = 10 }

abbrev decode : Decoder
decode raw =
    if raw == "refused"
    then some (record { result = "error"; code = "session:not_found"; content = "" })
    else some (record { result = "success"; code = ""; content = raw })

abbrev rows : Rows
rows = record {
  decode_session = λ content. if content == "row" then some cancelled else none;
  decode_report = λ content. none;
  decode_expired = λ content. none;
}

-- the arguments of a client-scoped procedure are sent as the name of the client
abbrev marshalled : Arguments → Option String
marshalled ((k, text id) ∷ (l, text client_id) ∷ []) = some client_id
marshalled _ = none

abbrev performed : ℕ → String → String → Fake → Driver × Fake
performed now procedure pi s =
    if pi == "bob"
    then (scanned "refused", s)
    else if procedure == proc_cancel_session
    then (scanned "done", (SessionDb.cancel kit now pi "s4" s).1)
    else (scanned "row", s)

abbrev db : ℕ → Database Arguments Fake
db now = record { marshal = marshalled; perform = performed now }

abbrev view : Fake → Fake
view s = s

abbrev calls : List (ℕ × Call)
calls = (10, gets "bob" "s4") ∷ (10, cancels "alice" "s4") ∷ (11, gets "alice" "s4") ∷ []

has_code : ◌≢◌ {A = String} "session:not_found" ""
has_code e = ground (arith, eq_iff "session:not_found" "")

served :
    Served view
      (production kit decode rows db view)
      (in_memory kit)
      (Serves kit decode rows db view)
      calls
      before
unfolding call_store invoke call command query classify parse_envelope result_error lookup
    SessionDb.cancel SessionDb.get_for_client SessionDb.is_due SessionDb.lazily_expire Pg.cancel
    Pg.get_for_client eudi_api_management.Base.Dict.insert
served = (
  ("bob", refl, ("refused", _, inl refl, refl, refl, has_code, refl), refl),
  (
    ("alice", refl, ("done", _, refl, refl, refl, tt), refl),
    (("alice", refl, ("row", _, refl, refl, refl, refl), refl), tt),
  ),
)

trace-refines_example :
    Agrees view
      (trace (production kit decode rows db view) calls before)
      (trace (in_memory kit) calls (view before))
trace-refines_example = trace-refines kit decode rows db view calls before served
