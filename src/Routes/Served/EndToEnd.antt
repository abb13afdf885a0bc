-- ===== src/Routes/Served/EndToEnd.antt =====
-- What holds of a request from its API key to its answer.
use eudi_api_management.Base.{
  ℕ, ◌/◌, String, ◌≡◌, ◌≢◌, refl, sym, ◌∙◌, ap, subst, ◌⊎◌, true, false, Option, none, some,
}
use eudi_api_management.Base.Results.{Result, ok, err}
use eudi_api_management.Errors.{Error}
use eudi_api_management.ApiKeys.{parse}
use eudi_api_management.ApiKeys.Verifier.{verify}
use eudi_api_management.Config.{Configuration, second}
use eudi_api_management.Wire.{VerificationResult}
use eudi_api_management.SessionDb.{Session}
use eudi_api_management.Registry.{ApiKeyRecord}
use eudi_api_management.Results.{value}
use eudi_api_management.Valkey.{getdel}
use eudi_api_management.Verifier.{CreateRequest, CreateResponse, create_session}
use eudi_api_management.Routes.Auth.Boundary.{api_key_auth-ok}
use eudi_api_management.Routes.Prepare.{SessionRequest, prepare}
use eudi_api_management.Routes.Prepare.Passed.{prepare-ok}
use eudi_api_management.Routes.Create.{SessionCreated, Creation, handle_create}
use eudi_api_management.Routes.Create.Calls.{handle_create-ok}
use eudi_api_management.Routes.Poll.{SessionView, Stores, is_redeemed, get_session}
use eudi_api_management.Routes.Poll.Release.{get_session-releases}
use eudi_api_management.Routes.RateLimits.{client_text}
use eudi_api_management.Routes.Router.{Handler, Framework, Documented, new_router}
use eudi_api_management.Routes.Router
use eudi_api_management.Routes.Router.Guards.{chain_of, new_router-routes, routes_of, handlers}
use eudi_api_management.Routes.Router.Gate.{
  Caller, Memory, IsGuarded, pass, entry, client_count, ip_count, pass-create, pass-guarded,
  pass-refused,
}
use eudi_api_management.Routes.Served.{
  Service, chain_for, enter, create_as, poll_as, cancel_as, no_creation, serve_create, serve_poll,
  serve_cancel,
}

chain_for-routes :
    (cfg : Configuration) (h : Handler) → chain_for h (routes_of cfg handlers) ≡ chain_of cfg h
unfolding chain_for
chain_for-routes cfg Handler.healthz = refl
chain_for-routes cfg Handler.readyz = refl
chain_for-routes cfg Handler.create_session = refl
chain_for-routes cfg Handler.get_session = refl
chain_for-routes cfg Handler.cancel_session = refl
chain_for-routes cfg Handler.list_templates = refl
chain_for-routes cfg Handler.create_template = refl
chain_for-routes cfg Handler.get_template = refl
chain_for-routes cfg Handler.delete_template = refl

module _ {G L S Q : Type 0} (fw : Framework G) (documented : Documented fw) (cfg : Configuration)
    (service : Service L S Q) (caller : Caller) (now : ℕ) (m : Memory L) where
  open service use {outside, net, dcql, engine, token, store, codec, keys, faults}

  pub enter-chain :
      (h : Handler)
      → enter fw cfg service caller now h m ≡ pass outside caller now (chain_of cfg h) none m
  unfolding enter
  enter-chain h =
      ap (λ chain. pass outside caller now chain none m)
        (ap (chain_for h) (new_router-routes fw documented cfg) ∙ chain_for-routes cfg h)

  -- The caller's key is one of this client: it has the right form, the registry has its prefix for the
  -- client, `Verify` accepts its secret against the stored hash, the client is active, and the key is
  -- not revoked.
  abbrev pub HoldsKey : String → Type 0
  HoldsKey client_id =
      (prefix : String) × (secret : String) × (rec : ApiKeyRecord) × (parse caller.api_key
        ≡ ok (prefix, secret))
      × (outside.registry.get_client_by_key_prefix prefix ≡ ok rec)
      × ((verify outside.sum256 outside.derive m.verifier rec.key_id rec.secret_hash secret
            now).answer
          ≡ ok true)
      × (rec.revoked ≡ false)
      × (rec.status ≡ "active")
      × (rec.client_id ≡ client_id)

  pub HoldsKey-entry :
      (client_id : String) → (entry outside caller now m).client ≡ ok client_id → HoldsKey client_id
  HoldsKey-entry client_id let_in =
      api_key_auth-ok outside.sum256 outside.derive outside.kit outside.dummy outside.registry
        m.verifier caller.api_key now client_id let_in

  poll_as-ok :
      (id : String) (code : Option String) (w : Stores S)
      (x : Result Error (Option String) × Memory L) (view : SessionView)
      → (poll_as fw cfg service caller now id code w x).0.0 ≡ ok view
      → (client : Option String) × (x.0 ≡ ok client)
        × ((get_session store codec keys faults now (client_text client) id code w).0 ≡ ok view)
  poll_as-ok id code w (ok client, n) view h = (client, refl, h)
  poll_as-ok id code w (err f, n) view h = cc

  -- the memory after a refusal: the verified keys may have changed
  abbrev pub turned_away : Memory L
  turned_away = record m { verifier = (entry outside caller now m).verifier }

  enter-refused :
      (h : Handler) (f : Error)
      → IsGuarded h
      → (entry outside caller now m).client ≡ err f
      → enter fw cfg service caller now h m ≡ (err f, turned_away)
  enter-refused h f guarded refused =
      enter-chain h ∙ pass-refused outside caller now cfg m h f guarded refused

  module _ (correlation_id inbound_id : String) (body : SessionRequest) where
    abbrev served : Creation
    served = (serve_create fw cfg service caller now correlation_id inbound_id body m).0

    create_as-ok :
        (x : Result Error (Option String) × Memory L) (out : SessionCreated)
        → (create_as fw cfg service caller now correlation_id inbound_id body x).0.reply ≡ ok out
        → (client : Option String) × (x.0 ≡ ok client)
          × ((handle_create net outside.registry
                (client_text client)
                dcql
                correlation_id
                (cfg.session_default_ttl / second)
                engine
                token
                inbound_id
                body).reply
              ≡ ok out)
    create_as-ok (ok client, n) out h = (client, refl, h)
    create_as-ok (err f, n) out h = cc

    -- A session is created over HTTP only for a caller whose key holds for a client, within the
    -- limits of that client and of its address. The request to the engine is in that client's name
    -- and passed the checks against that client's registry rows, and the answer carries the id of
    -- the session that the engine created.
    pub serve_create-ok :
        (out : SessionCreated)
        → served.reply ≡ ok out
        → (client_id : String) × HoldsKey client_id
          × ((client_count outside caller now cfg m client_id).0 ≡ true)
          × ((ip_count outside caller now cfg m client_id).0 ≡ true)
          × ((passed : CreateRequest) × (r : CreateResponse) × (prepare net outside.registry
                  client_id dcql correlation_id
                  (cfg.session_default_ttl / second)
                  body
                ≡ ok passed)
              × (passed.client_id ≡ client_id)
              × ((create_session engine token inbound_id passed).outcome ≡ ok r)
              × (out.session_id ≡ r.session_id))
    unfolding serve_create
    serve_create-ok out h =
        let (client, entered, created) =
          create_as-ok (enter fw cfg service caller now Router.create_session m) out h in
        let (client_id, known, let_in, within, below, counted) =
          pass-create outside caller now cfg m client
            (sym (ap (λ x. x.0) (enter-chain Router.create_session)) ∙ entered) in
        let (passed, r, prepared, exchanged, sent, same_id, state, endpoint, counted_flow) =
          handle_create-ok net outside.registry client_id dcql correlation_id
            (cfg.session_default_ttl / second) engine token inbound_id body out
            (subst
              (λ c.
                (handle_create net outside.registry (client_text c) dcql correlation_id
                  (cfg.session_default_ttl / second) engine token inbound_id body).reply
                ≡ ok out)
              known created) in
        let (row, read, owner, flow, scoped, origins, browser, same, redirect, hook, ttl) =
          prepare-ok net outside.registry client_id dcql correlation_id
            (cfg.session_default_ttl / second) body passed prepared in
        (
          client_id,
          HoldsKey-entry client_id let_in,
          within,
          below,
          (passed, r, prepared, owner, exchanged, same_id),
        )

  -- A poll over HTTP shows claim values only to a caller whose key holds for the client that the
  -- store gives the session to. The session is verified, and its flow is not same_device or its
  -- response code was redeemed: before, or by this poll with a code that the cache holds for this
  -- very session.
  pub serve_poll-releases :
      (id : String) (code : Option String) (w : Stores S) (view : SessionView)
      (r : VerificationResult)
      → (serve_poll fw cfg service caller now id code w m).0.0 ≡ ok view
      → view.result ≡ some r
      → (client_id : String) × HoldsKey client_id
        × ((s : Session) × ((store.get_for_client client_id id w.db).0 ≡ ok s)
            × (s.status ≡ "verified")
            × ((s.flow ≢ "same_device")
                ⊎ (is_redeemed s.code_redeemed_at ≡ true)
                ⊎ ((c : String) × (code ≡ some c)
                    × ((getdel faults now c w.valkey).0 ≡ value s.id))))
  unfolding serve_poll
  serve_poll-releases id code w view r h there =
      let (client, entered, shown) =
        poll_as-ok id code w (enter fw cfg service caller now Router.get_session m) view h in
      let (client_id, known, let_in) =
        pass-guarded outside caller now m client
          (sym (ap (λ x. x.0) (enter-chain Router.get_session)) ∙ entered) in
      (
        client_id,
        HoldsKey-entry client_id let_in,
        get_session-releases store codec keys faults now client_id id code w view r
            (subst
              (λ c. (get_session store codec keys faults now (client_text c) id code w).0 ≡ ok view)
              known shown)
            there,
      )

  -- A request that the boundary refuses does nothing: it is answered with the refusal, no limiter
  -- counts it, the engine is not called, and the stores are as they were.
  pub refused-nothing :
      (f : Error)
      → (entry outside caller now m).client ≡ err f
      → ((correlation_id inbound_id : String) (body : SessionRequest)
          → serve_create fw cfg service caller now correlation_id inbound_id body m
            ≡ (no_creation fw cfg service caller now f, turned_away))
        × ((id : String) (code : Option String) (w : Stores S)
            → serve_poll fw cfg service caller now id code w m ≡ ((err f, w), turned_away))
        × ((correlation_id id : String) (db : S)
            → serve_cancel fw cfg service caller now correlation_id id db m
              ≡ (((err f, db), none), turned_away))
  unfolding serve_create serve_poll serve_cancel
  refused-nothing f refused = (
    λ correlation_id inbound_id body.
        ap (create_as fw cfg service caller now correlation_id inbound_id body)
          (enter-refused Router.create_session f tt refused),
    λ id code w.
        ap (poll_as fw cfg service caller now id code w)
          (enter-refused Router.get_session f tt refused),
    λ correlation_id id db.
        ap (cancel_as fw cfg service caller now correlation_id id db)
          (enter-refused Router.cancel_session f tt refused),
  )
