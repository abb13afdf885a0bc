-- ===== src/Routes/Poll.antt =====
-- routes/sessions.go: `getSession` and `cancelSession`.
pub mod Release
use eudi_api_management.Base.{
  ℕ, String, Bool, true, false, ◌&&◌, ◌||◌, not, Option, none, some, List, ◌==◌, if◌then◌else◌,
}
use eudi_api_management.Base.Results.{Result, ok, err, ◌>>=◌}
use eudi_api_management.Errors.{Error, fault}
use eudi_api_management.Wire.{VerificationReport, VerificationResult, Failure, Codec, Keys}
use eudi_api_management.SessionDb.{Session, Store}
use eudi_api_management.Results.{Reply, value, nil, failed, Mapped, map_report, Fetched, fetch}
use eudi_api_management.Valkey.{Valkey, Faults, getdel, get_payload}
use eudi_api_management.Verifier.{Engine, Exchange, Request, delete_session}

-- api.Session
pub record SessionView : Type 0 where
  pub session_id : String
  pub state : String
  pub created_at : ℕ
  pub completed_at : Option ℕ
  pub report : Option VerificationReport
  pub failure : Option Failure
  pub result : Option VerificationResult

-- the session store and the cache
pub record Stores (S : Type 0) : Type 0 where
  pub db : S
  pub valkey : Valkey

-- terminalSessionStates
unfoldable is_terminal_state : String → Bool
is_terminal_state s = s == "verified" || s == "failed" || s == "expired" || s == "cancelled"

unfoldable pub view_of : Session → Mapped → Option VerificationResult → SessionView
unfolding is_terminal_state
view_of s (report, failure) result = record {
  session_id = s.id;
  state = s.status;
  created_at = s.created_at;
  completed_at = if is_terminal_state s.status then some s.updated_at else none;
  report = report;
  failure = failure;
  result = result;
}

-- `CodeRedeemedAt != nil`
abbrev pub is_redeemed : Option ℕ → Bool
is_redeemed none = false
is_redeemed (some t) = true

-- `status == "verified" && (flow != "same_device" || redeemed)`
unfoldable pub is_released : Session → Bool → Bool
is_released s redeemed = s.status == "verified" && (not (s.flow == "same_device") || redeemed)

-- whether a code is redeemed at all: same_device, not redeemed yet, a code that is not empty
unfoldable pub wants_code : Session → Option String → Option String
wants_code s none = none
wants_code s (some code) =
    if s.flow == "same_device" && not (is_redeemed s.code_redeemed_at) && not (code == "")
    then some code
    else none

module _ {S : Type 0} (store : Store S) (codec : Codec) (keys : Keys) (faults : Faults)
    (now : ℕ) where
  abbrev marked : Valkey → Result Error Unit × S → Result Error Bool × Stores S
  marked v (ok u, db) = (ok true, record { db = db; valkey = v })
  marked v (err e, db) = (err e, record { db = db; valkey = v })

  -- what the owner of a consumed code leads to
  unfoldable pub redeem_for :
      String → Session → String → Reply String → Stores S → Result Error Bool × Stores S
  redeem_for client_id s id (value owner) w =
      if owner == s.id
      then marked w.valkey (store.mark_code_redeemed client_id id w.db)
      else (ok (is_redeemed s.code_redeemed_at), w)
  redeem_for client_id s id nil w = (ok (is_redeemed s.code_redeemed_at), w)
  redeem_for client_id s id failed w = (err (fault "read response code"), w)

  abbrev redeem_read :
      String → Session → String → Stores S → Reply String × Valkey → Result Error Bool × Stores S
  redeem_read client_id s id w (reply, v) =
      redeem_for client_id s id reply (record w { valkey = v })

  -- the redemption of a response code: whether the session is redeemed after it
  unfoldable pub redeem_code :
      String → Session → String → Option String → Stores S → Result Error Bool × Stores S
  unfolding redeem_for
  redeem_code client_id s id none w = (ok (is_redeemed s.code_redeemed_at), w)
  redeem_code client_id s id (some code) w =
      redeem_read client_id s id w (getdel faults now code w.valkey)

  abbrev shown : Session → Mapped → Result Error Fetched → Result Error SessionView
  shown s mapped (err e) = err e
  shown s mapped (ok f) = ok (view_of s mapped f.result)

  abbrev fetch_read :
      Session → Mapped → Stores S → Reply String × Valkey → Result Error SessionView × Stores S
  fetch_read s mapped w (reply, v) =
      (shown s mapped (fetch codec keys reply), record w { valkey = v })

  -- the release of the result
  unfoldable pub release :
      Session → String → Mapped → Result Error Bool × Stores S → Result Error SessionView × Stores S
  unfolding is_released view_of
  release s id mapped (err e, w) = (err e, w)
  release s id mapped (ok redeemed, w) =
      if is_released s redeemed
      then fetch_read s mapped w (get_payload faults now id w.valkey)
      else (ok (view_of s mapped none), w)

  abbrev with_report :
      String
      → String
      → Option String
      → Session
      → Stores S
      → Result Error Mapped
      → Result Error SessionView × Stores S
  with_report client_id id code s w (err e) = (err e, w)
  with_report client_id id code s w (ok mapped) =
      release s id mapped (redeem_code client_id s id (wants_code s code) w)

  abbrev read_report :
      String
      → String
      → Option String
      → Session
      → Valkey
      → Result Error String × S
      → Result Error SessionView × Stores S
  read_report client_id id code s v (raw, db) =
      with_report client_id id code s (record { db = db; valkey = v }) (raw >>= map_report codec)

  abbrev read_session :
      String
      → String
      → Option String
      → Valkey
      → Result Error Session × S
      → Result Error SessionView × Stores S
  read_session client_id id code v (err e, db) = (err e, record { db = db; valkey = v })
  read_session client_id id code v (ok s, db) =
      read_report client_id id code s v (store.get_report_for_client client_id id db)

  -- getSession
  unfoldable pub get_session :
      String → String → Option String → Stores S → Result Error SessionView × Stores S
  unfolding wants_code redeem_code release
  get_session client_id id code w =
      read_session client_id id code w.valkey (store.get_for_client client_id id w.db)

  abbrev pub after_cancel :
      Engine
      → String
      → String
      → String
      → Result Error Unit × S
      → (Result Error Unit × S) × Option Request
  after_cancel engine token correlation_id id (err e, db) = ((err e, db), none)
  after_cancel engine token correlation_id id (ok u, db) =
      ((ok u, db), (delete_session engine token correlation_id id).sent)

  -- cancelSession: the answer, the store and the request to the engine, whose error is only logged
  unfoldable pub cancel_session :
      Engine → String → String → String → String → S → (Result Error Unit × S) × Option Request
  cancel_session engine token correlation_id client_id id db =
      after_cancel engine token correlation_id id (store.cancel client_id id db)
