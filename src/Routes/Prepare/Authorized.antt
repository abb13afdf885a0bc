-- ===== src/Routes/Prepare/Authorized.antt =====
-- What holds of a session request that createSession passes on to the engine.
use eudi_api_management.Base.{
  ℕ, String, ◌≡◌, refl, ap, sym, ◌∙◌, subst, ◌≢◌, inl, inr, Bool, true, false, ◌&&◌, ◌||◌, Option,
  some, List, [], ◌∷◌, ◌==◌, eq_iff, arith, all, Bool-cases,
}
use eudi_api_management.Base.Results.{Result, ok, err, ok-inj, >>=-eq-ok}
use eudi_api_management.Errors.{Error}
use eudi_api_management.Registry.{Client, IntendedUse, Reads}
use eudi_api_management.Scope.{
  Dcql, DcqlCredential, ScopeFailure, unparsable, invalid, exceeded, failed, check_within_scope,
  to_dcql,
}
use eudi_api_management.Scope.Granted.{check_within_scope-ok}
use eudi_api_management.Verifier.{CreateRequest, RegistrationRef}
use eudi_api_management.Routes.Web.{
  Net, lift, require, is_web_origin, origin_allowed, scope_refusal,
}
use eudi_api_management.Routes.Prepare.{
  SessionRequest, Target, resolve_target, check_each, check_origins, check_targets,
  identity_required, active_use, request_for, authorize,
}

pub require-ok : (b : Bool) (e : Error) {u : Unit} → require b e ≡ ok u → b ≡ true
require-ok true e h = refl
require-ok false e h = cc

pub lift-ok : {A : Type 0} (r : Result Error A) {a : A} → lift r ≡ ok a → r ≡ ok a
lift-ok (ok x) h = cc
lift-ok (err e) h = cc

pub scope_refusal-ok :
    {A : Type 0} (r : Result ScopeFailure A) {a : A} → scope_refusal r ≡ ok a → r ≡ ok a
unfolding scope_refusal
scope_refusal-ok (ok x) h = cc
scope_refusal-ok (err unparsable) h = cc
scope_refusal-ok (err invalid) h = cc
scope_refusal-ok (err (exceeded os)) h = cc
scope_refusal-ok (err (failed what)) h = cc

module _ (net : Net) (registry : Reads) (client_id : String) where
  pub active_use-ok :
      (id : String) (iu : IntendedUse)
      → active_use net registry client_id id ≡ ok iu
      → (registry.get_intended_use client_id id ≡ ok iu) × (iu.revoked_at ≡ "")
  unfolding active_use
  active_use-ok id iu h =
      let (x, read, h1) = >>=-eq-ok (lift (registry.get_intended_use client_id id)) _ h in
      let (u, active, h2) = >>=-eq-ok (require (x.revoked_at == "") _) _ h1 in
      let same = ok-inj h2 in
      (
        lift-ok _ read ∙ ap ok same,
        ap (λ z. z.revoked_at) (sym same) ∙ (eq_iff _ _).0 (require-ok _ _ active),
      )

  check_each-ok :
      (origins : List String) {u : Unit}
      → check_each net registry client_id origins ≡ ok u
      → all (is_web_origin net) origins ≡ true
  unfolding check_each
  check_each-ok [] h = refl
  check_each-ok (o ∷ os) h =
      let (u, usable, rest) = >>=-eq-ok (require (is_web_origin net o) _) _ h in
      rw (require-ok _ _ usable) (check_each-ok os rest)

  -- the stored origins of an accepted browser-mediated request: there are some, all web origins
  check_origins-ok :
      (origins : List String) {u : Unit}
      → check_origins net registry client_id "dcapi" origins ≡ ok u
      → (origins ≢ []) × (all (is_web_origin net) origins ≡ true)
  unfolding check_origins
  check_origins-ok [] h = cc
  check_origins-ok (o ∷ os) h = (λ e. cc, check_each-ok (o ∷ os) h)

  check_targets-ok :
      (db_flow : String) (req : SessionRequest) (client : Client) {u : Unit}
      → check_targets net registry client_id db_flow req client ≡ ok u
      → (db_flow ≡ "same_device" → req.redirect_uri ≢ "")
        × (req.redirect_uri ≢ ""
            → origin_allowed net req.redirect_uri client.allowed_origins ≡ true)
        × (req.webhook_url ≢ "" → origin_allowed net req.webhook_url client.allowed_origins ≡ true)
  unfolding check_targets
  check_targets-ok db_flow req client h =
      elim (Bool-cases (db_flow == "same_device" && req.redirect_uri == "")) [
        | inl bad ↦ cc (rw (check_targets, bad) at h)
        | inr first ↦
            elim (Bool-cases (
              req.redirect_uri == ""
              || origin_allowed net req.redirect_uri client.allowed_origins)) [
                | inr bad ↦ cc (rw (check_targets, first, bad) at h)
                | inl second ↦
                    elim (Bool-cases (
                      req.webhook_url == ""
                      || origin_allowed net req.webhook_url client.allowed_origins)) [
                        | inr bad ↦ cc (rw (check_targets, first, second, bad) at h)
                        | inl third ↦ (
                          λ same empty.
                              ground
                                (arith, eq_iff db_flow "same_device", eq_iff req.redirect_uri ""),
                          λ full. ground (arith, eq_iff req.redirect_uri ""),
                          λ full. ground (arith, eq_iff req.webhook_url ""),
                        )
                      ]
              ]
      ]

  module _ {Q : Type 0} (dcql : Dcql Q) (correlation_id : String) (default_ttl : ℕ) where
    -- An accepted request is for an active intended use of the client, with a query inside the
    -- registered scope of that use.
    abbrev pub IsInScope : CreateRequest → Type 0
    IsInScope out =
        (iu : IntendedUse) × (q : Q) × (cs : List DcqlCredential) × (registry.get_intended_use
            client_id iu.intended_use_id
          ≡ ok iu)
        × (iu.revoked_at ≡ "")
        × (dcql.parse out.dcql_query ≡ some q)
        × (dcql.is_valid q ≡ true)
        × (to_dcql iu.credentials ≡ ok cs)
        × ((dcql.within_scope q cs).0 ≡ true)

    pub authorize-ok :
        (req : SessionRequest) (db_flow : String) (client : Client) (out : CreateRequest)
        → authorize net registry client_id dcql correlation_id default_ttl req db_flow client
          ≡ ok out
        → (target : Target) × (wrprc : Option String) × (reg : RegistrationRef) × (request_for net
              registry client_id dcql correlation_id default_ttl req db_flow client target wrprc reg
            ≡ out)
          × IsInScope out
          × (db_flow ≡ "dcapi"
              → (client.allowed_origins ≢ [])
                × (all (is_web_origin net) client.allowed_origins ≡ true))
          × (db_flow ≡ "same_device" → req.redirect_uri ≢ "")
          × (req.redirect_uri ≢ ""
              → origin_allowed net req.redirect_uri client.allowed_origins ≡ true)
          × (req.webhook_url ≢ ""
              → origin_allowed net req.webhook_url client.allowed_origins ≡ true)
    unfolding authorize
    authorize-ok req db_flow client out h =
        let (target, targeted, h1) = >>=-eq-ok (resolve_target net registry client_id req) _ h in
        let (iu, used, h2) =
          >>=-eq-ok (active_use net registry client_id target.intended_use_id) _ h1 in
        let (q, scoped, h3) =
          >>=-eq-ok
            (scope_refusal
              (check_within_scope dcql target.raw_query (iu ∷ []) target.intended_use_id))
            _ h2 in
        let (u, origins, h4) =
          >>=-eq-ok (check_origins net registry client_id db_flow client.allowed_origins) _ h3 in
        let (u1, targets, h5) =
          >>=-eq-ok (check_targets net registry client_id db_flow req client) _ h4 in
        let (wrprc, read, h6) =
          >>=-eq-ok (lift (registry.get_wrprc_for_intended_use client_id target.intended_use_id)) _
            h5 in
        let (reg, identified, h7) =
          >>=-eq-ok
            (identity_required net registry client_id (
              net.new_registration_ref client.name client.client_identifier client.registry_uri
                target.intended_use_id))
            _ h6 in
        let made = ok-inj h7 in
        let (registered, active) = active_use-ok target.intended_use_id iu used in
        let (parsed, is_valid, same_id, (cs, converted, within)) =
          check_within_scope-ok dcql target.raw_query iu target.intended_use_id q
            (scope_refusal-ok _ scoped) in
        let (redirect_set, redirect_ok, webhook_ok) = check_targets-ok db_flow req client targets in
        (
          target,
          wrprc,
          reg,
          made,
          (
            iu,
            q,
            cs,
            subst (λ x. registry.get_intended_use client_id x ≡ ok iu) (sym same_id) registered,
            active,
            subst (λ x. dcql.parse x ≡ some q) (ap (λ x. x.dcql_query) made) parsed,
            is_valid,
            converted,
            within,
          ),
          λ browser. check_origins-ok client.allowed_origins (
              subst (λ x. check_origins net registry client_id x client.allowed_origins ≡ ok u)
                browser origins),
          redirect_set,
          redirect_ok,
          webhook_ok,
        )
