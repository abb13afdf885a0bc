-- ===== src/Routes/Create/Calls.antt =====
-- When createSession calls the engine and what it counts.
use eudi_api_management.Base.{
  ℕ, String, ◌≡◌, refl, ap, sym, inl, inr, Option, none, [], ◌∷◌, ◌==◌, Option-cases, Bool-cases,
  if◌then◌else◌,
}
use eudi_api_management.Base.Results.{Result, ok, err, Result-cases, >>=-eq-ok, ok-inj}
use eudi_api_management.Errors.{Error}
use eudi_api_management.Registry.{Reads}
use eudi_api_management.Scope.{Dcql}
use eudi_api_management.Wire.Flows.{flow_from_db}
use eudi_api_management.Verifier.{CreateRequest, CreateResponse, Engine, Request, create_session}
use eudi_api_management.Routes.Web.{Net, Refusal, plain, scope_denied, error_of}
use eudi_api_management.Routes.Prepare.{SessionRequest, prepare}
use eudi_api_management.Routes.Create.{
  SessionCreated, Creation, refused, created_body, answered, handle_create,
}

module _ (net : Net) where
  refused-quiet :
      (r : Refusal)
      → ((refused net r).reply ≡ err (error_of r))
        × ((refused net r).sent ≡ none)
        × ((refused net r).created_flows ≡ [])
  unfolding error_of
  refused-quiet (plain e) = (refl, refl, refl)
  refused-quiet (scope_denied offenses) = (refl, refl, refl)

  answered-sent :
      (req : CreateRequest) (sent : Option Request) (r : Result Error SessionCreated)
      → (answered net req sent r).sent ≡ sent
  answered-sent req sent (ok out) = refl
  answered-sent req sent (err e) = refl

  answered-ok :
      (req : CreateRequest) (sent : Option Request) (r : Result Error SessionCreated)
      (out : SessionCreated)
      → (answered net req sent r).reply ≡ ok out
      → (r ≡ ok out) × ((answered net req sent r).created_flows ≡ flow_from_db req.flow ∷ [])
  answered-ok req sent (ok x) out h = (h, refl)
  answered-ok req sent (err e) out h = cc

  created_body-ok :
      (db_flow : String) (r : CreateResponse) (out : SessionCreated)
      → created_body net db_flow r ≡ ok out
      → (out.session_id ≡ r.session_id)
        × (out.state ≡ "pending")
        × (out.dc_api_response_uri ≡ (if db_flow == "dcapi" then r.response_uri else ""))
  unfolding created_body
  created_body-ok db_flow r out h = elim (Bool-cases (r.dc_api_request == "")) [
    | inl absent ↦ shown (ok-inj (rw absent at h))
    | inr given ↦ elim (Option-cases (net.decode_object r.dc_api_request)) [
      | inl bad ↦ cc (rw (given, bad) at h)
      | inr (object, good) ↦ shown (ok-inj (rw (given, good) at h))
    ]
  ]
    where
      shown :
          {x : SessionCreated}
          → x ≡ out
          → (out.session_id ≡ x.session_id)
            × (out.state ≡ x.state)
            × (out.dc_api_response_uri ≡ x.dc_api_response_uri)
      shown e = (
        sym (ap (λ y. y.session_id) e),
        sym (ap (λ y. y.state) e),
        sym (ap (λ y. y.dc_api_response_uri) e),
      )

module _ (net : Net) (registry : Reads) (client_id : String) {Q : Type 0} (dcql : Dcql Q)
    (correlation_id : String) (default_ttl : ℕ) (engine : Engine) (token inbound_id : String)
    (req : SessionRequest) where
  abbrev creation : Creation
  creation =
      handle_create net registry client_id dcql correlation_id default_ttl engine token inbound_id
        req

  -- A request that fails a check is answered with that check's error, sends nothing to the engine
  -- and counts no created session.
  handle_create-refused :
      (r : Refusal)
      → prepare net registry client_id dcql correlation_id default_ttl req ≡ err r
      → (creation.reply ≡ err (error_of r)) × (creation.sent ≡ none) × (creation.created_flows ≡ [])
  unfolding handle_create
  handle_create-refused r h = rw h (refused-quiet net r)

  -- A session is answered only for a request that passed the checks and that the engine created: it
  -- carries the engine's session id, its response endpoint exactly for the browser flow, and counts
  -- as one session of its flow.
  pub handle_create-ok :
      (out : SessionCreated)
      → creation.reply ≡ ok out
      → (passed : CreateRequest) × (r : CreateResponse) × (prepare net registry client_id dcql
            correlation_id default_ttl req
          ≡ ok passed)
        × ((create_session engine token inbound_id passed).outcome ≡ ok r)
        × (creation.sent ≡ (create_session engine token inbound_id passed).sent)
        × (out.session_id ≡ r.session_id)
        × (out.state ≡ "pending")
        × (out.dc_api_response_uri ≡ (if passed.flow == "dcapi" then r.response_uri else ""))
        × (creation.created_flows ≡ flow_from_db passed.flow ∷ [])
  unfolding handle_create
  handle_create-ok out h =
      elim (Result-cases (prepare net registry client_id dcql correlation_id default_ttl req)) [
        | inr (r, failure) ↦ cc ((refused-quiet net r).0, rw failure at h)
        | inl (passed, good) ↦
            let exchanged = create_session engine token inbound_id passed in
            let (built, counted) = answered-ok net passed exchanged.sent _ out (rw good at h) in
            let (r, created, body) =
              >>=-eq-ok exchanged.outcome (created_body net passed.flow) built in
            let (id, state, endpoint) = created_body-ok net passed.flow r out body in
            (
              passed,
              r,
              good,
              created,
              rw good (answered-sent net passed exchanged.sent _),
              id,
              state,
              endpoint,
              rw good counted,
            )
      ]
