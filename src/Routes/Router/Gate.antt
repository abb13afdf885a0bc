-- ===== src/Routes/Router/Gate.antt =====
-- A request on its way through the middleware of its route, in the order of the chain: apiKeyAuth, which
-- sets the client id, and the limiters, each with its key.
use eudi_api_management.Base.{
  ℕ, String, ◌≡◌, refl, sym, ◌∙◌, ap, Bool, true, false, Option, none, some, List, [], ◌∷◌, inl,
  inr,
}
use eudi_api_management.Base.Results.{Result, ok, err, ok-inj, Result-cases}
use eudi_api_management.Errors.{Error, Kit}
use eudi_api_management.ApiKeys.{Derive}
use eudi_api_management.ApiKeys.Verifier.{Verifier}
use eudi_api_management.Registry.{Reads}
use eudi_api_management.Config.{Configuration}
use eudi_api_management.Routes.Auth.{Dummy, Entry, api_key_auth}
use eudi_api_management.Routes.RateLimits.{
  Counting, client_key, ip_key, session_key_limiter, session_ip_limiter,
}
use eudi_api_management.Routes.Router.{
  Middleware, authenticate, limit_client, limit_ip, Handler, healthz, readyz, create_session,
}
use eudi_api_management.Routes.Router.Guards.{chain_of}

-- What the middleware reads of a request: the X-API-Key header and the client's address.
pub record Caller : Type 0 where
  pub api_key : String
  pub ip : String

-- What the middleware keeps between requests: the verified keys and the counters of the limiters.
pub record Memory (L : Type 0) : Type 0 where
  pub verifier : Verifier
  pub counters : L

-- The outside of the middleware: SHA-256 and argon2, the kit, the dummy pair, the registry, azugo's
-- counting and its answer to a request over the limit.
pub record Outside (L : Type 0) : Type 0 where
  pub sum256 : String → String
  pub derive : Derive
  pub kit : Kit
  pub dummy : Dummy
  pub registry : Reads
  pub counting : Counting L
  pub too_many : Error

-- every handler but the two probes
abbrev pub IsGuarded : Handler → Type 0
IsGuarded healthz = ⊥
IsGuarded readyz = ⊥
IsGuarded _ = Unit

module _ {L : Type 0} (outside : Outside L) (caller : Caller) (now : ℕ) where
  open outside use {sum256, derive, kit, dummy, registry, counting, too_many}

  abbrev pub entry : Memory L → Entry
  entry m = api_key_auth sum256 derive kit dummy registry m.verifier caller.api_key now

  abbrev counted :
      (Memory L → Result Error (Option String) × Memory L)
      → Memory L
      → Bool × L
      → Result Error (Option String) × Memory L
  counted next m (true, l) = next (record m { counters = l })
  counted next m (false, l) = (err too_many, record m { counters = l })

  abbrev entered :
      (Option String → Memory L → Result Error (Option String) × Memory L)
      → Memory L
      → Entry
      → Result Error (Option String) × Memory L
  entered next m e = elim e.client [
    | ok client_id ↦ next (some client_id) (record m { verifier = e.verifier })
    | err f ↦ (err f, record m { verifier = e.verifier })
  ]

  -- The chain of a route: the client id that the handler sees, or the refusal.
  unfoldable pub pass :
      List Middleware → Option String → Memory L → Result Error (Option String) × Memory L
  pass [] client m = (ok client, m)
  pass (authenticate ∷ chain) client m = entered (pass chain) m (entry m)
  pass (limit_client limiter ∷ chain) client m =
      counted (pass chain client) m (counting limiter (client_key client) now m.counters)
  pass (limit_ip limiter ∷ chain) client m =
      counted (pass chain client) m (counting limiter (ip_key caller.ip) now m.counters)

  counted-ok :
      (next : Memory L → Result Error (Option String) × Memory L) (m : Memory L) (x : Bool × L)
      {client : Option String}
      → (counted next m x).0 ≡ ok client
      → (x.0 ≡ true)
        × ((next (record m { counters = x.1 })).0 ≡ ok client)
        × ((counted next m x).1 ≡ (next (record m { counters = x.1 })).1)
  counted-ok next m (true, l) h = (refl, h, refl)
  counted-ok next m (false, l) h = cc

  entered-ok :
      (next : Option String → Memory L → Result Error (Option String) × Memory L) (m : Memory L)
      (e : Entry) {client : Option String}
      → (entered next m e).0 ≡ ok client
      → (client_id : String) × (e.client ≡ ok client_id)
        × ((next (some client_id) (record m { verifier = e.verifier })).0 ≡ ok client)
        × ((entered next m e).1 ≡ (next (some client_id) (record m { verifier = e.verifier })).1)
  entered-ok next m e h = elim (Result-cases e.client) [
    | inl (client_id, let_in) ↦
        (client_id, let_in, rw (let_in, entered) at h, rw (let_in, entered) refl)
    | inr (f, refused) ↦ cc (rw (refused, entered) at h)
  ]

  entered-err :
      (next : Option String → Memory L → Result Error (Option String) × Memory L) (m : Memory L)
      (e : Entry) {f : Error}
      → e.client ≡ err f
      → entered next m e ≡ (err f, record m { verifier = e.verifier })
  entered-err next m e refused = rw (refused, entered) refl

  -- A request passes a chain of the boundary alone only as the client that it let through.
  pub pass-guarded :
      (m : Memory L) (client : Option String)
      → (pass (authenticate ∷ []) none m).0 ≡ ok client
      → (client_id : String) × (client ≡ some client_id) × ((entry m).client ≡ ok client_id)
  unfolding pass
  pass-guarded m client h =
      let (client_id, let_in, passed, after) = entered-ok (pass []) m (entry m) h in
      (client_id, sym (ok-inj passed), let_in)

  -- A request of a client passes a chain of the boundary alone.
  pub pass-client :
      (m : Memory L) (client_id : String)
      → (entry m).client ≡ ok client_id
      → pass (authenticate ∷ []) none m
        ≡ (ok (some client_id), record m { verifier = (entry m).verifier })
  unfolding pass
  pass-client m client_id let_in = rw (let_in, entered) refl

  module _ (cfg : Configuration) (m : Memory L) where
    -- the count per client of a request that the boundary let through
    abbrev pub client_count : String → Bool × L
    client_count client_id =
        counting (session_key_limiter cfg) (client_key (some client_id)) now m.counters

    -- the count per address after it
    abbrev pub ip_count : String → Bool × L
    ip_count client_id =
        counting (session_ip_limiter cfg) (ip_key caller.ip) now (client_count client_id).1

    -- A request passes the chain of session creation only as the client that the boundary let
    -- through, counted under its client id and then under its address, both within their limits.
    pub pass-create :
        (client : Option String)
        → (pass (chain_of cfg create_session) none m).0 ≡ ok client
        → (client_id : String) × (client ≡ some client_id)
          × ((entry m).client ≡ ok client_id)
          × ((client_count client_id).0 ≡ true)
          × ((ip_count client_id).0 ≡ true)
          × ((pass (chain_of cfg create_session) none m).1.counters ≡ (ip_count client_id).1)
    unfolding pass
    pass-create client h =
        let (client_id, let_in, limited, after) =
          entered-ok
            (pass (limit_client (session_key_limiter cfg) ∷ limit_ip (session_ip_limiter cfg) ∷ []))
            m (entry m) h in
        let known : Memory L = record m { verifier = (entry m).verifier } in
        let (within, addressed, after') =
          counted-ok (pass (limit_ip (session_ip_limiter cfg) ∷ []) (some client_id)) known
            (client_count client_id) limited in
        let (below, passed, after'') =
          counted-ok (pass [] (some client_id))
            (record known { counters = (client_count client_id).1 }) (ip_count client_id)
            addressed in
        (
          client_id,
          sym (ok-inj passed),
          let_in,
          within,
          below,
          ap (λ n. n.counters) (after ∙ after' ∙ after''),
        )

    -- A request that the boundary refuses is answered by the boundary, whichever handler it is for,
    -- and no limiter counts it.
    pub pass-refused :
        (handler : Handler) (f : Error)
        → IsGuarded handler
        → (entry m).client ≡ err f
        → pass (chain_of cfg handler) none m ≡ (err f, record m { verifier = (entry m).verifier })
    unfolding pass
    pass-refused create_session f guarded refused =
        entered-err
          (pass (limit_client (session_key_limiter cfg) ∷ limit_ip (session_ip_limiter cfg) ∷ [])) m
          (entry m) refused
    pass-refused healthz f guarded refused = elim guarded [ ]
    pass-refused readyz f guarded refused = elim guarded [ ]
    pass-refused _ f guarded refused = entered-err (pass []) m (entry m) refused
