-- ===== src/Routes/Prepare/Accepted.antt =====
-- Which requests for a session createSession passes on: the other direction of Passed.
use eudi_api_management.Base.{
  ℕ, ◌≤◌, String, ◌≡◌, ◌≢◌, refl, ◌⊎◌, inl, inr, Bool, true, not, ◌&&◌, ◌||◌, Option, some, List,
  [], ◌∷◌, ◌==◌, eq_iff, ==-eq-false_of_ne, arith, all, if◌then◌else◌, Bool-cases,
}
use eudi_api_management.Base.Results.{ok}
use eudi_api_management.Base.Dict.{Dict}
use eudi_api_management.Registry.{Client, IntendedUse, Template, Reads}
use eudi_api_management.Scope.{Dcql, check_within_scope}
use eudi_api_management.Wire.Flows.{flow_to_db}
use eudi_api_management.Verifier.{CreateRequest, RegistrationRef}
use eudi_api_management.Routes.Web.{Net, is_web_origin, origin_allowed, scope_refusal}
use eudi_api_management.Routes.Prepare.{
  SessionRequest, Target, of_template, has_inline, is_ttl_valid, resolve_target, check_each,
  check_origins, check_targets, active_use, request_for, authorize, prepare,
}

not_both : (s t u v : String) → (s ≢ t) ⊎ (u ≢ v) → not (s == t && u == v) ≡ true
not_both s t u v (inl a) = rw (==-eq-false_of_ne s t a) refl
not_both s t u v (inr b) = ground (arith, ==-eq-false_of_ne u v b)

empty_or : (s : String) (b : Bool) → (s ≡ "") ⊎ (b ≡ true) → (s == "" || b) ≡ true
empty_or s b (inl e) = rw e refl
empty_or s b (inr h) = ground (arith, h)

module _ (net : Net) (registry : Reads) (client_id : String) where
  -- The presentation of the request itself, for the use that it names, or for the client's only use.
  pub record IsInline (req : SessionRequest) (target : Target) : Type 0 where
    pub no_template : req.template_id ≡ ""
    pub query : req.dcql_query ≢ []
    pub encoded : net.encode_query req.dcql_query ≡ some target.raw_query
    pub chosen :
        ((req.intended_use_id ≢ "") × (target.intended_use_id ≡ req.intended_use_id))
        ⊎ ((req.intended_use_id ≡ "")
            × ((only : IntendedUse) × (registry.list_intended_uses client_id ≡ ok (only ∷ []))
                × (target.intended_use_id ≡ only.intended_use_id)))

  -- The presentation of a template of the client's.
  pub record IsTemplated (req : SessionRequest) (target : Target) : Type 0 where
    pub given : req.template_id ≢ ""
    pub no_query : req.dcql_query ≡ []
    pub row : Template
    pub found : registry.get_template client_id req.template_id ≡ ok row
    pub taken : target ≡ of_template row

  resolve_target-inline :
      (req : SessionRequest) (target : Target)
      → IsInline req target
      → resolve_target net registry client_id req ≡ ok target
  unfolding resolve_target
  resolve_target-inline req target i = elim i.chosen [
    | inl (named, same) ↦
        rw (i.no_template, i.encoded, ==-eq-false_of_ne req.intended_use_id "" named, ← same) refl
    | inr (unnamed, (only, listed, same)) ↦
        rw (i.no_template, i.encoded, unnamed, listed, ← same) refl
  ]

  resolve_target-template :
      (req : SessionRequest) (target : Target)
      → IsTemplated req target
      → resolve_target net registry client_id req ≡ ok target
  unfolding resolve_target
  resolve_target-template req target i =
      rw (==-eq-false_of_ne req.template_id "" i.given, i.found, i.taken) refl

  active_use-active :
      (id : String) (iu : IntendedUse)
      → registry.get_intended_use client_id id ≡ ok iu
      → iu.revoked_at ≡ ""
      → active_use net registry client_id id ≡ ok iu
  unfolding active_use
  active_use-active id iu found active =
      let open_use : (iu.revoked_at == "") ≡ true = (eq_iff iu.revoked_at "").1 active in
      rw (found, open_use) refl

  check_each-all :
      (os : List String)
      → all (is_web_origin net) os ≡ true
      → check_each net registry client_id os ≡ ok tt
  unfolding check_each
  check_each-all [] h = refl
  check_each-all (o ∷ os) h =
      let usable : is_web_origin net o ≡ true = ground arith in
      rw usable (check_each-all os (ground arith))

  check_origins-usable :
      (db_flow : String) (origins : List String)
      → (db_flow ≢ "dcapi") ⊎ ((origins ≢ []) × (all (is_web_origin net) origins ≡ true))
      → check_origins net registry client_id db_flow origins ≡ ok tt
  unfolding check_origins
  check_origins-usable db_flow origins (inl other) =
      rw (==-eq-false_of_ne db_flow "dcapi" other) refl
  check_origins-usable db_flow [] (inr (some_origin, usable)) = absurd (some_origin refl)
  check_origins-usable db_flow (o ∷ os) (inr (some_origin, usable)) =
      elim (Bool-cases (db_flow == "dcapi")) [
        | inl browser ↦ rw browser (check_each-all (o ∷ os) usable)
        | inr other ↦ rw other refl
      ]

  check_targets-allowed :
      (db_flow : String) (req : SessionRequest) (client : Client)
      → (db_flow ≢ "same_device") ⊎ (req.redirect_uri ≢ "")
      → (req.redirect_uri ≡ "")
        ⊎ (origin_allowed net req.redirect_uri client.allowed_origins ≡ true)
      → (req.webhook_url ≡ "") ⊎ (origin_allowed net req.webhook_url client.allowed_origins ≡ true)
      → check_targets net registry client_id db_flow req client ≡ ok tt
  unfolding check_targets
  check_targets-allowed db_flow req client given redirect webhook =
      rw
        (
          not_both db_flow "same_device" req.redirect_uri "" given,
          empty_or req.redirect_uri _ redirect,
          empty_or req.webhook_url _ webhook,
        )
        refl

  module _ {Q : Type 0} (dcql : Dcql Q) (correlation_id : String) (default_ttl : ℕ) where
    -- What a request for a session must have to be passed on, with the rows and values that it comes
    -- down to.
    pub record IsAcceptable (req : SessionRequest) (out : CreateRequest) : Type 0 where
      pub db_flow : String
      pub flow : flow_to_db req.flow ≡ some db_flow
      pub ttl : (req.ttl_seconds ≡ 0) ⊎ ((60 ≤ req.ttl_seconds) × (req.ttl_seconds ≤ 3600))
      pub client : Client
      pub own_row : registry.get_client client_id ≡ ok client
      pub target : Target
      pub presentation : IsInline req target ⊎ IsTemplated req target
      pub iu : IntendedUse
      pub use_row : registry.get_intended_use client_id target.intended_use_id ≡ ok iu
      pub active : iu.revoked_at ≡ ""
      pub query : Q
      pub scope :
          check_within_scope dcql target.raw_query (iu ∷ []) target.intended_use_id ≡ ok query
      pub origins :
          (db_flow ≢ "dcapi")
          ⊎ ((client.allowed_origins ≢ [])
              × (all (is_web_origin net) client.allowed_origins ≡ true))
      pub redirect_given : (db_flow ≢ "same_device") ⊎ (req.redirect_uri ≢ "")
      pub redirect :
          (req.redirect_uri ≡ "")
          ⊎ (origin_allowed net req.redirect_uri client.allowed_origins ≡ true)
      pub webhook :
          (req.webhook_url ≡ "")
          ⊎ (origin_allowed net req.webhook_url client.allowed_origins ≡ true)
      pub wrprc : Option String
      pub wrprc_row :
          registry.get_wrprc_for_intended_use client_id target.intended_use_id ≡ ok wrprc
      pub reg : RegistrationRef
      pub identity :
          net.new_registration_ref client.name client.client_identifier client.registry_uri
            target.intended_use_id
          ≡ ok reg
      pub passed :
          out
          ≡ request_for net registry client_id dcql correlation_id default_ttl req db_flow client
              target wrprc reg

    resolves :
        (req : SessionRequest) (target : Target)
        → IsInline req target ⊎ IsTemplated req target
        → (resolve_target net registry client_id req ≡ ok target)
          × ((if req.template_id == ""
                then has_inline req.dcql_query
                else not (has_inline req.dcql_query))
              ≡ true)
    resolves req target (inl i) =
        (resolve_target-inline req target i, rw i.no_template (full req.dcql_query i.query))
      where
        full : (d : Dict String) → d ≢ [] → has_inline d ≡ true
        full [] some_entry = absurd (some_entry refl)
        full (entry ∷ entries) some_entry = refl
    resolves req target (inr i) = (
      resolve_target-template req target i,
      rw (==-eq-false_of_ne req.template_id "" i.given, i.no_query) refl,
    )

    ttl_valid : (n : ℕ) → (n ≡ 0) ⊎ ((60 ≤ n) × (n ≤ 3600)) → is_ttl_valid n ≡ true
    unfolding is_ttl_valid
    ttl_valid n h = ground arith

    -- Every acceptable request is passed on to the engine, as the request that its rows determine.
    pub prepare-accepts :
        (req : SessionRequest) (out : CreateRequest)
        → IsAcceptable req out
        → prepare net registry client_id dcql correlation_id default_ttl req ≡ ok out
    unfolding prepare
    prepare-accepts req out a =
        let (resolved, one) = resolves req a.target a.presentation in
        rw
          (
            one,
            a.flow,
            ttl_valid req.ttl_seconds a.ttl,
            a.own_row,
            authorize,
            resolved,
            active_use-active a.target.intended_use_id a.iu a.use_row a.active,
            a.scope,
            scope_refusal,
            check_origins-usable a.db_flow a.client.allowed_origins a.origins,
            check_targets-allowed a.db_flow req a.client a.redirect_given a.redirect a.webhook,
            a.wrprc_row,
            a.identity,
            a.passed,
          )
          refl
