-- ===== src/Routes/Served/Foreign.antt =====
-- Whole requests about a session of another client.
use eudi_api_management.Base.{ℕ, String, ◌≡◌, refl, ap, ◌∙◌, Option, none}
use eudi_api_management.Base.Results.{ok}
use eudi_api_management.Errors.{refuse}
use eudi_api_management.Config.{Configuration}
use eudi_api_management.SessionDb.{Fake, Store}
use eudi_api_management.SessionDb.Expire.{fake_store}
use eudi_api_management.SessionDb.Isolation.{IsForeign, foreign_refused}
use eudi_api_management.Routes.Poll.{Stores, get_session, cancel_session}
use eudi_api_management.Routes.Router.{Framework, Documented}
use eudi_api_management.Routes.Router
use eudi_api_management.Routes.Router.Gate.{Caller, Memory, entry, pass-client}
use eudi_api_management.Routes.Served.{Service, poll_as, cancel_as, serve_poll, serve_cancel}
use eudi_api_management.Routes.Served.EndToEnd.{enter-chain}

module _ {G L Q : Type 0} (fw : Framework G) (documented : Documented fw) (cfg : Configuration)
    (service : Service L Fake Q) (caller : Caller) (now : ℕ) (m : Memory L) where
  open service use {outside, store}

  -- the memory after the request was let in
  abbrev pub let_through : Memory L
  let_through = record m { verifier = (entry outside caller now m).verifier }

  -- Over the in-memory store, a poll and a cancellation by a client that the boundary lets in, for an id
  -- that no session of this client has, are answered alike whether another client has such a
  -- session or none does: as not found. The session, its response code and the queue stay as they
  -- are, and the engine is not called.
  pub serve-foreign :
      (client_id id : String) (code : Option String) (correlation_id : String) (w : Stores Fake)
      → store ≡ fake_store outside.kit now
      → (entry outside caller now m).client ≡ ok client_id
      → IsForeign client_id id w.db
      → (serve_poll fw cfg service caller now id code w m
          ≡ ((refuse outside.kit "session:not_found", w), let_through))
        × (serve_cancel fw cfg service caller now correlation_id id w.db m
            ≡ (((refuse outside.kit "session:not_found", w.db), none), let_through))
  unfolding serve_poll serve_cancel get_session cancel_session
  serve-foreign client_id id code correlation_id w own let_in foreign =
      let passed = pass-client outside caller now m client_id let_in in
      let (unread, uncancelled, unreported, unredeemed) =
        foreign_refused outside.kit now client_id id w.db foreign in
      let read : store.get_for_client client_id id w.db
          ≡ (refuse outside.kit "session:not_found", w.db) =
        ap (λ (s : Store Fake). s.get_for_client client_id id w.db) own ∙ unread in
      let cancelled : store.cancel client_id id w.db
          ≡ (refuse outside.kit "session:not_found", w.db) =
        ap (λ (s : Store Fake). s.cancel client_id id w.db) own ∙ uncancelled in
      (
        ap (poll_as fw cfg service caller now id code w)
              (enter-chain fw documented cfg service caller now m Router.get_session ∙ passed)
            ∙ rw (read) refl,
        ap (cancel_as fw cfg service caller now correlation_id id w.db)
              (enter-chain fw documented cfg service caller now m Router.cancel_session ∙ passed)
            ∙ rw (cancelled) refl,
      )
