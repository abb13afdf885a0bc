-- ===== src/SessionDb.antt =====
-- internal/sessiondb/repo.go and fake.go: the client-scoped view of the session schema. The
-- in-memory store states what the stored procedures do; an instant counts nanoseconds since
-- the Unix epoch, 0 stands for the zero time, and `now` is an argument of each operation.
pub mod Calls
pub mod Expire
pub mod Evolution
pub mod Lifecycle
pub mod Pg
pub mod Isolation
pub mod Sweep
use eudi_api_management.Base.{
  ℕ, zero, suc, ◌≤◌, String, Bool, true, false, not, ◌&&◌, ◌||◌, Option, none, some, List, [], ◌∷◌,
  ◌==◌, ltb, leb, nat_eq, if◌then◌else◌,
}
use eudi_api_management.Base.Results.{Result, ok, err}
use eudi_api_management.Base.Dict.{Dict, lookup, insert, keys}
use eudi_api_management.Errors.{Error, Kit, refuse}

pub record Session : Type 0 where
  pub id : String
  pub client_id : String
  pub correlation_id : String
  pub flow : String
  pub status : String
  pub webhook_url : String
  pub redirect_uri : String
  pub created_at : ℕ
  pub updated_at : ℕ
  pub expires_at : ℕ
  pub code_redeemed_at : Option ℕ
  pub webhook_state : String

pub record ExpiredSession : Type 0 where
  pub id : String
  pub client_id : String
  pub webhook_url : String
  pub correlation_id : String

-- The store interface; `S` is the state behind it.
pub record Store (S : Type 0) : Type 0 where
  pub get_for_client : String → String → S → Result Error Session × S
  pub cancel : String → String → S → Result Error Unit × S
  pub get_report_for_client : String → String → S → Result Error String × S
  pub mark_code_redeemed : String → String → S → Result Error Unit × S
  pub set_webhook_state : String → String → String → S → Result Error Unit × S
  pub expire_due : ℕ → S → Result Error (List ExpiredSession) × S

-- The in-memory store. A report is its JSON text.
pub record Fake : Type 0 where
  pub sessions : Dict Session
  pub reports : Dict String
  pub last_err_code : Dict String

-- validWebhookStates
unfoldable pub valid_webhook_state : String → Bool
valid_webhook_state s = s == "pending" || s == "delivering" || s == "delivered" || s == "failed"

pub new_fake : Fake
new_fake = record { sessions = []; reports = []; last_err_code = [] }

unfoldable seed : Session → Fake → Fake
seed s f = record f {
  sessions =
      insert s.id
        (record s { webhook_state = if s.webhook_state == "" then "pending" else s.webhook_state })
        f.sessions;
}

unfoldable seed_report : String → String → Fake → Fake
seed_report id report f = record f { reports = insert id report f.reports }

unfoldable pub is_open : String → Bool
is_open status = status == "pending" || status == "wallet_engaged"

-- The test of `lazilyExpireLocked` and of `ExpireDue`: `!IsZero() && !After(now)`.
unfoldable pub is_due : ℕ → Session → Bool
unfolding is_open
is_due now s = is_open s.status && not (nat_eq s.expires_at 0) && not (ltb now s.expires_at)

unfoldable pub lazily_expire : ℕ → Session → Session
lazily_expire now s = if is_due now s then record s { status = "expired"; updated_at = now } else s

-- `s, ok := f.sessions[sessionID]; !ok || s.ClientID != clientID`
unfoldable pub owned : String → Option Session → Option Session
owned client_id none = none
owned client_id (some s) = if s.client_id == client_id then some s else none

-- `*s = …`, for a session found under `id`
abbrev pub write : String → Session → Fake → Fake
write id s f = record f { sessions = insert id s f.sessions }

module _ (kit : Kit) (now : ℕ) where
  unfoldable pub get_for_client : String → String → Fake → Result Error Session × Fake
  unfolding owned
  get_for_client client_id id f = elim (owned client_id (lookup id f.sessions)) [
    | none ↦ (refuse kit "session:not_found", f)
    | some s ↦ (ok (lazily_expire now s), write id (lazily_expire now s) f)
  ]

  -- the part of `Cancel` after the lazy expiry
  unfoldable pub cancel_open : String → Session → Fake → Result Error Unit × Fake
  cancel_open id s f =
      if is_open s.status
      then (ok tt, write id (record s { status = "cancelled"; updated_at = now }) f)
      else (refuse kit "session:not_cancellable", write id s f)

  unfoldable pub cancel : String → String → Fake → Result Error Unit × Fake
  unfolding owned cancel_open
  cancel client_id id f = elim (owned client_id (lookup id f.sessions)) [
    | none ↦ (refuse kit "session:not_found", f)
    | some s ↦ cancel_open id (lazily_expire now s) f
  ]

  -- `nil` is the empty text
  unfoldable pub get_report_for_client : String → String → Fake → Result Error String × Fake
  unfolding owned
  get_report_for_client client_id id f = elim (owned client_id (lookup id f.sessions)) [
    | none ↦ (refuse kit "session:not_found", f)
    | some s ↦ elim (lookup id f.reports) [ none ↦ (ok "", f) | some r ↦ (ok r, f) ]
  ]

  abbrev redeem : Option ℕ → Session → Session
  redeem none s = record s { code_redeemed_at = some now }
  redeem (some t) s = s

  unfoldable pub mark_code_redeemed : String → String → Fake → Result Error Unit × Fake
  unfolding owned
  mark_code_redeemed client_id id f = elim (owned client_id (lookup id f.sessions)) [
    | none ↦ (refuse kit "session:not_found", f)
    | some s ↦ (ok tt, write id (redeem s.code_redeemed_at s) f)
  ]

  unfoldable pub set_webhook_state : String → String → String → Fake → Result Error Unit × Fake
  unfolding valid_webhook_state
  set_webhook_state id state err_code f =
      if valid_webhook_state state
      then elim (lookup id f.sessions) [
        | none ↦ (refuse kit "session:not_found", f)
        | some s ↦ (
          ok tt,
          record f {
            sessions = insert id (record s { webhook_state = state }) f.sessions;
            last_err_code = insert id err_code f.last_err_code;
          },
        )
      ]
      else (refuse kit "session:invalid", f)
