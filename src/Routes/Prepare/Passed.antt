-- ===== src/Routes/Prepare/Passed.antt =====
-- The request that createSession passes on, from the body of the caller to the engine.
use eudi_api_management.Base.{
  ℕ, ◌≤◌, String, ◌≡◌, ap, sym, ◌∙◌, subst, ◌⊎◌, ◌≢◌, inl, inr, true, not, some, [], ◌==◌, nat_eq,
  eq_iff, arith, all, if◌then◌else◌, Bool-cases,
}
use eudi_api_management.Base.Results.{ok, >>=-eq-ok, or_fail-eq-ok, or_fail}
use eudi_api_management.Errors.{bad_request, param_invalid}
use eudi_api_management.Registry.{Client, Reads}
use eudi_api_management.Scope.{Dcql}
use eudi_api_management.Wire.Flows.{flow_to_db}
use eudi_api_management.Verifier.{CreateRequest}
use eudi_api_management.Routes.Web.{Net, plain, lift, require, is_web_origin, origin_allowed}
use eudi_api_management.Routes.Prepare.{SessionRequest, has_inline, is_ttl_valid, prepare}
use eudi_api_management.Routes.Prepare.Authorized.{require-ok, lift-ok, IsInScope, authorize-ok}

is_ttl_valid-true :
    (ttl default_ttl : ℕ)
    → is_ttl_valid ttl ≡ true
    → ((ttl ≡ 0) × ((if nat_eq ttl 0 then default_ttl else ttl) ≡ default_ttl))
      ⊎ ((60 ≤ ttl) × (ttl ≤ 3600) × ((if nat_eq ttl 0 then default_ttl else ttl) ≡ ttl))
unfolding is_ttl_valid
is_ttl_valid-true ttl default_ttl h = elim (Bool-cases (nat_eq ttl 0)) [
  | inl absent ↦ inl (ground arith, rw absent)
  | inr given ↦ inr (ground arith, ground arith, rw given)
]

unless_equal : {A : Type 0} (s t : String) → (s ≡ t → A) → (s ≢ t) ⊎ A
unless_equal s t h = elim (Bool-cases (s == t)) [
  | inl same ↦ inr (h ((eq_iff s t).0 same))
  | inr other ↦ inl (λ e. cc (sym other, (eq_iff s t).1 e))
]

if_not_equal : {A : Type 0} (s t : String) → (s ≢ t → A) → (s ≡ t) ⊎ A
if_not_equal s t h = elim (Bool-cases (s == t)) [
  | inl same ↦ inl ((eq_iff s t).0 same)
  | inr other ↦ inr (h (λ e. cc (sym other, (eq_iff s t).1 e)))
]

module _ (net : Net) (registry : Reads) (client_id : String) {Q : Type 0} (dcql : Dcql Q)
    (correlation_id : String) (default_ttl : ℕ) (req : SessionRequest) (out : CreateRequest) where
  -- A request that reaches the engine is in the caller's name and flow, for an active intended use
  -- of the caller's and a valid query inside its registered scope. It restricts origins exactly for
  -- the browser flow, to the client's stored origins, which are then web origins and not none. A
  -- same_device request has a redirect target, a redirect target and a webhook of the caller's lie
  -- on stored origins, and the lifetime is the default or the caller's between 60 and 3600.
  pub prepare-ok :
      prepare net registry client_id dcql correlation_id default_ttl req ≡ ok out
      → (client : Client) × (registry.get_client client_id ≡ ok client)
        × (out.client_id ≡ client_id)
        × (flow_to_db req.flow ≡ some out.flow)
        × IsInScope net registry client_id dcql correlation_id default_ttl out
        × (out.expected_origins ≡ (if out.flow == "dcapi" then client.allowed_origins else []))
        × ((out.flow ≢ "dcapi")
            ⊎ ((client.allowed_origins ≢ [])
                × (all (is_web_origin net) client.allowed_origins ≡ true)))
        × ((out.flow ≢ "same_device") ⊎ (req.redirect_uri ≢ ""))
        × ((req.redirect_uri ≡ "")
            ⊎ (origin_allowed net req.redirect_uri client.allowed_origins ≡ true))
        × ((req.webhook_url ≡ "")
            ⊎ (origin_allowed net req.webhook_url client.allowed_origins ≡ true))
        × ((out.ttl_seconds ≡ default_ttl)
            ⊎ ((60 ≤ req.ttl_seconds)
                × (req.ttl_seconds ≤ 3600)
                × (out.ttl_seconds ≡ req.ttl_seconds)))
  unfolding prepare
  prepare-ok h =
      let (u, one, h1) =
        >>=-eq-ok
          (require
            (if req.template_id == ""
              then has_inline req.dcql_query
              else not (has_inline req.dcql_query))
            (bad_request "presentation must set exactly one of templateId or dcqlQuery"))
          _ h in
      let (db_flow, flow, h2) =
        >>=-eq-ok (or_fail (flow_to_db req.flow) (plain (param_invalid "flow"))) _ h1 in
      let (u1, ttl, h3) =
        >>=-eq-ok
          (require (is_ttl_valid req.ttl_seconds)
            (bad_request "ttlSeconds must be between 60 and 3600"))
          _ h2 in
      let (client, read, h4) = >>=-eq-ok (lift (registry.get_client client_id)) _ h3 in
      let (target, wrprc, reg, made, scoped, origins, redirect_set, redirect_ok, webhook_ok) =
        authorize-ok net registry client_id dcql correlation_id default_ttl req db_flow client out
          h4 in
      let flows : db_flow ≡ out.flow = ap (λ x. x.flow) made in
      (
        client,
        lift-ok _ read,
        sym (ap (λ x. x.client_id) made),
        or_fail-eq-ok _ _ flow ∙ ap some flows,
        scoped,
        subst (λ x. out.expected_origins ≡ (if x == "dcapi" then client.allowed_origins else []))
            flows (sym (ap (λ x. x.expected_origins) made)),
        unless_equal out.flow "dcapi" (λ browser. origins (flows ∙ browser)),
        unless_equal out.flow "same_device" (λ same. redirect_set (flows ∙ same)),
        if_not_equal req.redirect_uri "" redirect_ok,
        if_not_equal req.webhook_url "" webhook_ok,
        elim (is_ttl_valid-true req.ttl_seconds default_ttl (require-ok _ _ ttl)) [
          | inl (absent, chosen) ↦ inl (sym (ap (λ x. x.ttl_seconds) made) ∙ chosen)
          | inr (low, high, chosen) ↦ inr (low, high, sym (ap (λ x. x.ttl_seconds) made) ∙ chosen)
        ],
      )
