-- ===== src/Routes/Served/Cancelled.antt =====
-- Whole requests that cancel a session.
use eudi_api_management.Base.{
  ℕ, String, ◌≡◌, refl, sym, ap, subst, ◌∙◌, ◌⊎◌, inl, inr, true, false, Option, none, some,
  some-inj, ◌==◌, eq_iff, arith, Bool-cases, Option-cases,
}
use eudi_api_management.Base.Results.{Result, ok, err}
use eudi_api_management.Base.Dict.{lookup}
use eudi_api_management.Text.{append}
use eudi_api_management.Errors.{Error, Kit}
use eudi_api_management.Config.{Configuration}
use eudi_api_management.SessionDb.{
  Session, Fake, Store, is_open, is_due, lazily_expire, owned, write, cancel_open, cancel,
}
use eudi_api_management.SessionDb.Expire.{fake_store}
use eudi_api_management.Verifier.{Request, exchange, delete_session}
use eudi_api_management.Routes.Poll.{after_cancel, cancel_session}
use eudi_api_management.Routes.RateLimits.{client_text}
use eudi_api_management.Routes.Router.{Framework, Documented}
use eudi_api_management.Routes.Router
use eudi_api_management.Routes.Router.Gate.{Caller, Memory, pass-guarded}
use eudi_api_management.Routes.Served.{Service, enter, cancel_as, serve_cancel}
use eudi_api_management.Routes.Served.EndToEnd.{HoldsKey, HoldsKey-entry, enter-chain}

owned-some :
    (client_id : String) (found : Option Session) (s : Session)
    → owned client_id found ≡ some s
    → (found ≡ some s) × (s.client_id ≡ client_id)
unfolding owned
owned-some client_id none s h = cc
owned-some client_id (some x) s h = elim (Bool-cases (x.client_id == client_id)) [
  | inl mine ↦
      let same : ◌≡◌ {A = Option Session} (some x) (some s) = rw mine at h in
      (same, ap (λ z. z.client_id) (sym (some-inj same)) ∙ (eq_iff _ _).0 mine)
  | inr other ↦ cc (rw other at h)
]

-- The session is one of the client, open and not past its expiry.
abbrev pub IsCancellable : ℕ → String → String → Fake → Session → Type 0
IsCancellable now client_id id f s =
    (lookup id f.sessions ≡ some s)
    × (s.client_id ≡ client_id)
    × ((s.status ≡ "pending") ⊎ (s.status ≡ "wallet_engaged"))
    × (is_due now s ≡ false)

abbrev pub cancelled_at : ℕ → String → Session → Fake → Fake
cancelled_at now id s f = write id (record s { status = "cancelled"; updated_at = now }) f

cancel-ok :
    (kit : Kit) (now : ℕ) (client_id id : String) (f : Fake)
    → (cancel kit now client_id id f).0 ≡ ok tt
    → (s : Session) × IsCancellable now client_id id f s
      × ((cancel kit now client_id id f).1 ≡ cancelled_at now id s f)
unfolding cancel cancel_open lazily_expire is_open
cancel-ok kit now client_id id f h = elim (Option-cases (owned client_id (lookup id f.sessions))) [
  | inl missing ↦ cc (rw (cancel, missing) at h)
  | inr (s, mine) ↦
      let (found, owner) = owned-some client_id (lookup id f.sessions) s mine in
      elim (Bool-cases (is_due now s)) [
        | inl due ↦ cc (rw (cancel, mine, cancel_open, lazily_expire, due) at h)
        | inr live ↦ elim (Bool-cases (is_open s.status)) [
          | inl open_still ↦ (
            s,
            (
              found,
              owner,
              ground (arith, eq_iff s.status "pending", eq_iff s.status "wallet_engaged"),
              live,
            ),
            rw (cancel, mine, cancel_open, lazily_expire, live, open_still) refl,
          )
          | inr over ↦ cc (rw (cancel, mine, cancel_open, lazily_expire, live, over) at h)
        ]
      ]
]

module _ {G L Q : Type 0} (fw : Framework G) (documented : Documented fw) (cfg : Configuration)
    (service : Service L Fake Q) (caller : Caller) (now : ℕ) (m : Memory L) where
  open service use {outside, store, codec, keys, faults, engine, token}

  cancel_as-ok :
      (correlation_id id : String) (db : Fake) (x : Result Error (Option String) × Memory L)
      → (cancel_as fw cfg service caller now correlation_id id db x).0.0.0 ≡ ok tt
      → (client : Option String) × (x.0 ≡ ok client)
        × ((cancel_as fw cfg service caller now correlation_id id db x).0
            ≡ cancel_session store codec keys faults now engine token correlation_id
                (client_text client)
                id
                db)
  cancel_as-ok correlation_id id db (ok client, n) h = (client, refl, refl)
  cancel_as-ok correlation_id id db (err f, n) h = cc

  -- The request that deletes the session at the engine, if its URL can be made.
  abbrev pub IsDeletion : String → Option Request → Type 0
  IsDeletion id sent =
      engine.can_address (append "/internal/v1/sessions/" id) ≡ true
      → (r : Request) × (sent ≡ some r)
        × (r.method ≡ "DELETE")
        × (r.path ≡ append "/internal/v1/sessions/" id)
        × (r.authorization ≡ append "Bearer " token)

  deleted :
      (correlation_id id : String)
      → IsDeletion id (delete_session engine token correlation_id id).sent
  unfolding delete_session exchange
  deleted correlation_id id can = rw can (_, refl, refl, refl, refl)

  after_cancel-ok :
      (correlation_id id : String) (x : Result Error Unit × Fake)
      → let done = after_cancel store codec keys faults now engine token correlation_id id x in
        done.0.0 ≡ ok tt → (x.0 ≡ ok tt) × (done.0.1 ≡ x.1) × IsDeletion id done.1
  after_cancel-ok correlation_id id (ok u, db) h = (refl, refl, deleted correlation_id id)
  after_cancel-ok correlation_id id (err e, db) h = cc

  -- Over the in-memory store, a cancellation over HTTP succeeds only for a caller whose key holds for
  -- a client, and only for a session of this client that is open and not past its expiry. The
  -- session, and no other row, is then stored as cancelled now, and the engine is sent the deletion of
  -- it under the service's token, if the URL for it can be made.
  pub serve_cancel-commits :
      (correlation_id id : String) (db : Fake)
      → store ≡ fake_store outside.kit now
      → let done = (serve_cancel fw cfg service caller now correlation_id id db m).0 in
        done.0.0 ≡ ok tt
        → (client_id : String) × HoldsKey fw documented cfg service caller now m client_id
          × ((s : Session) × IsCancellable now client_id id db s
              × (done.0.1 ≡ cancelled_at now id s db))
          × IsDeletion id done.1
  unfolding serve_cancel cancel_session
  serve_cancel-commits correlation_id id db own h =
      let (client, entered, done) =
        cancel_as-ok correlation_id id db (enter fw cfg service caller now Router.cancel_session m)
          h in
      let (client_id, known, let_in) = pass-guarded outside caller now m client (
        sym
          (ap (λ x. x.0) (enter-chain fw documented cfg service caller now m Router.cancel_session))
        ∙ entered) in
      let held = HoldsKey-entry fw documented cfg service caller now m client_id let_in in
      let cancelled : store.cancel (client_text client) id db
          ≡ cancel outside.kit now client_id id db =
        ap (λ (s : Store Fake). s.cancel (client_text client) id db) own
        ∙ ap (λ c. cancel outside.kit now (client_text c) id db) known in
      let (good, state, sent) =
        after_cancel-ok correlation_id id (store.cancel (client_text client) id db)
          (sym (ap (λ x. x.0.0) done) ∙ h) in
      let (s, fits, written) =
        cancel-ok outside.kit now client_id id db (sym (ap (λ x. x.0) cancelled) ∙ good) in
      (
        client_id,
        held,
        (s, fits, ap (λ x. x.0.1) done ∙ state ∙ ap (λ x. x.1) cancelled ∙ written),
        subst (IsDeletion id) (sym (ap (λ x. x.1) done)) sent,
      )
