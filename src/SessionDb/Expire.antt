-- ===== src/SessionDb/Expire.antt =====
-- internal/sessiondb/fake.go, `ExpireDue`, and the in-memory store as an implementation of `Store`.
-- `limit` is the positive batch size of app.go, a natural number.
use Prim.Native.Nat.{Ordering}
use Prim.Native.String.{compare}
use eudi_api_management.Base.{
  ℕ, String, Option, none, some, List, [], ◌∷◌, ◌++◌, leb, if◌then◌else◌, length,
}
use eudi_api_management.Base.Results.{Result, ok}
use eudi_api_management.Base.Dict.{lookup, keys}
use eudi_api_management.Errors.{Error, Kit}
use eudi_api_management.SessionDb.{
  Session, ExpiredSession, Store, Fake, is_due, write, get_for_client, cancel,
  get_report_for_client, mark_code_redeemed, set_webhook_state,
}

-- sort.Strings
unfoldable pub insert_sorted : String → List String → List String
insert_sorted k [] = k ∷ []
insert_sorted k (j ∷ js) = elim (compare j k) [
  | Ordering.lt ↦ j ∷ insert_sorted k js
  | _ ↦ k ∷ j ∷ js
]

unfoldable pub sort_strings : List String → List String
unfolding insert_sorted
sort_strings [] = []
sort_strings (k ∷ ks) = insert_sorted k (sort_strings ks)

unfoldable pub expired_row : Session → ExpiredSession
expired_row s = record {
  id = s.id;
  client_id = s.client_id;
  webhook_url = s.webhook_url;
  correlation_id = s.correlation_id;
}

-- `s.Status = "expired"; s.UpdatedAt = now`
unfoldable pub expire : ℕ → Session → Session
expire now s = record s { status = "expired"; updated_at = now }

-- The batch under way: what is returned so far, and the store.
pub record Batch : Type 0 where
  pub out : List ExpiredSession
  pub store : Fake

-- the body of the loop for the session found under `id`
unfoldable pub expire_one : ℕ → String → Option Session → Batch → Batch
unfolding expire expired_row
expire_one now id none b = b
expire_one now id (some s) b =
    if is_due now s
    then record {
      out = b.out ++ expired_row (expire now s) ∷ [];
      store = write id (expire now s) b.store;
    }
    else b

unfoldable pub expire_loop : ℕ → ℕ → List String → Batch → Batch
unfolding expire_one
expire_loop now limit [] b = b
expire_loop now limit (id ∷ ids) b =
    let rest = expire_loop now limit ids (expire_one now id (lookup id b.store.sessions) b) in
    if leb limit (length b.out) then b else rest

unfoldable pub expire_due : ℕ → ℕ → Fake → Result Error (List ExpiredSession) × Fake
unfolding expire_loop sort_strings
expire_due now limit f =
    let b =
      expire_loop now limit (sort_strings (keys f.sessions)) (record { out = []; store = f }) in
    (ok b.out, b.store)

-- The store as the handlers and the background tasks see it, at the instant `now`.
abbrev pub fake_store : Kit → ℕ → Store Fake
fake_store kit now = record {
  get_for_client = get_for_client kit now;
  cancel = cancel kit now;
  get_report_for_client = get_report_for_client kit now;
  mark_code_redeemed = mark_code_redeemed kit now;
  set_webhook_state = set_webhook_state kit now;
  expire_due = expire_due now;
}
