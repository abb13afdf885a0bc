-- ===== src/SessionDb/Pg.antt =====
-- internal/sessiondb/repo.go: `PG`, the production session store, as calls of stored procedures. The
-- database and encoding/json at the rows are arguments.
pub mod Refines
use eudi_api_management.Base.{ℕ, String, Option, List, [], ◌∷◌, ◌==◌, ◌++◌, if◌then◌else◌}
use eudi_api_management.Base.Results.{Result}
use eudi_api_management.Base.Dict.{Dict}
use eudi_api_management.Errors.{Error, Kit}
use eudi_api_management.Procedures.{Decoder, Database, command, query, invoke}
use eudi_api_management.SessionDb.{Session, ExpiredSession, Store}

abbrev pub proc_get_session_for_client : String
proc_get_session_for_client = "session.get_session_for_client"

abbrev pub proc_cancel_session : String
proc_cancel_session = "session.cancel_session"

abbrev pub proc_get_report_for_client : String
proc_get_report_for_client = "session.get_report_for_client"

abbrev pub proc_mark_code_redeemed : String
proc_mark_code_redeemed = "session.mark_code_redeemed"

abbrev pub proc_set_webhook_state : String
proc_set_webhook_state = "session.set_webhook_state"

abbrev pub proc_expire_due_sessions : String
proc_expire_due_sessions = "session.expire_due_sessions"

-- A value of the arguments: of `map[string]string` or of `map[string]int`.
pub data Argument : Type 0 where
  text : String → Argument
  number : ℕ → Argument

abbrev pub Arguments : Type 0
Arguments = Dict Argument

-- encoding/json at the data of the replies; a report that is absent is the empty text
pub record Rows : Type 0 where
  pub decode_session : String → Option Session
  pub decode_report : String → Option String
  pub decode_expired : String → Option (List ExpiredSession)

-- the arguments of the client-scoped procedures
abbrev pub scoped : String → String → Arguments
scoped client_id id = ("id", text id) ∷ ("client_id", text client_id) ∷ []

-- an error code that is empty is left out
abbrev pub webhook_arguments : String → String → String → Arguments
webhook_arguments id state err_code =
    ("id", text id)
    ∷ ("state", text state)
    ∷ (if err_code == "" then [] else ("error_code", text err_code) ∷ [])

module _ {S : Type 0} (kit : Kit) (decode : Decoder) (rows : Rows) (db : Database Arguments S) where
  unfoldable pub get_for_client : String → String → S → Result Error Session × S
  get_for_client client_id id =
      invoke (query rows.decode_session kit decode) db proc_get_session_for_client
        (scoped client_id id)

  unfoldable pub cancel : String → String → S → Result Error Unit × S
  cancel client_id id = invoke (command kit decode) db proc_cancel_session (scoped client_id id)

  unfoldable pub get_report_for_client : String → String → S → Result Error String × S
  get_report_for_client client_id id =
      invoke (query rows.decode_report kit decode) db proc_get_report_for_client
        (scoped client_id id)

  unfoldable pub mark_code_redeemed : String → String → S → Result Error Unit × S
  mark_code_redeemed client_id id =
      invoke (command kit decode) db proc_mark_code_redeemed (scoped client_id id)

  unfoldable pub set_webhook_state : String → String → String → S → Result Error Unit × S
  set_webhook_state id state err_code =
      invoke (command kit decode) db proc_set_webhook_state (webhook_arguments id state err_code)

  unfoldable pub expire_due : ℕ → S → Result Error (List ExpiredSession) × S
  expire_due limit =
      invoke (query rows.decode_expired kit decode) db proc_expire_due_sessions
        (("limit", number limit) ∷ [])

  -- NewPG
  abbrev pub pg_store : Store S
  pg_store = record {
    get_for_client = get_for_client;
    cancel = cancel;
    get_report_for_client = get_report_for_client;
    mark_code_redeemed = mark_code_redeemed;
    set_webhook_state = set_webhook_state;
    expire_due = expire_due;
  }
