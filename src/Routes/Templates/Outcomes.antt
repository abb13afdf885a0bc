-- ===== src/Routes/Templates/Outcomes.antt =====
-- What the template handlers answer, over the in-memory registry.
use eudi_api_management.Base.{
  ℕ, String, ◌≡◌, ◌≢◌, refl, ap, sym, subst, ◌∙◌, inl, inr, Bool, true, ◌&&◌, ◌||◌, not, some, List,
  [], ◌∷◌, ◌==◌, eq_iff, arith,
}
use eudi_api_management.Base.Results.{
  Result, ok, err, Result-cases, ok-inj, or_fail, >>=-eq-ok, or_fail-eq-ok,
}
use eudi_api_management.Base.Dict.{Dict}
use eudi_api_management.Errors.{Error, Kit, NotFoundIs404, is_not_found_error, new_problem}
use eudi_api_management.Registry.{IntendedUse, Template}
use eudi_api_management.Registry.Fake.{Fake, reads, get_intended_use, get_template, create_template}
use eudi_api_management.Registry.Fake.Ownership.{
  IsHidden, hidden_refused, create_template-outcome, create_template-row,
}
use eudi_api_management.Scope.{Dcql, DcqlCredential, check_within_scope, to_dcql}
use eudi_api_management.Scope.Granted.{check_within_scope-ok}
use eudi_api_management.Routes.Web.{Net, require, scope_refusal}
use eudi_api_management.Routes.Prepare.{active_use}
use eudi_api_management.Routes.Prepare.Authorized.{require-ok, active_use-ok, scope_refusal-ok}
use eudi_api_management.Routes.Templates.{
  TemplateNew, TemplateView, TemplateCreation, has_query, template_error, show_template,
  remove_template, authorize_template, new_row, view_created, handle_create_template,
}

abbrev template_not_found : Error
template_not_found = new_problem "err:template:notFound"

abbrev is_complete : TemplateNew → Bool
is_complete req = not (req.name == "" || req.intended_use_id == "") && has_query req.dcql_query

has_query-ok : (entries : Dict String) → has_query entries ≡ true → entries ≢ []
has_query-ok [] h = cc
has_query-ok (entry ∷ entries) h = λ e. cc

is_complete-ok :
    (req : TemplateNew)
    → is_complete req ≡ true
    → (req.name ≢ "") × (req.intended_use_id ≢ "") × (req.dcql_query ≢ [])
is_complete-ok req h = (
  λ e. ground (arith, (eq_iff req.name "").1 e),
  λ e. ground (arith, (eq_iff req.intended_use_id "").1 e),
  has_query-ok req.dcql_query (ground arith),
)

module _ (kit : Kit) (net : Net) where
  registry_not_found :
      NotFoundIs404 kit
      → template_error kit (kit.from_result_code "err:registry:not_found") ≡ template_not_found
  unfolding template_error is_not_found_error
  registry_not_found docs = rw (template_error, is_not_found_error, docs.registry)

  -- A template of another client, a deleted one and one that never was are all answered the same,
  -- `err:template:notFound`, by reading and by deleting, and deleting changes nothing, where the
  -- kit gives a not-found result code its documented status.
  hidden_template :
      NotFoundIs404 kit
      → (client_id id : String) (f : Fake) → IsHidden kit client_id id f
      → (show_template kit net client_id id f ≡ err template_not_found)
        × (remove_template kit net client_id id f ≡ (err template_not_found, f))
  unfolding show_template remove_template
  hidden_template docs client_id id f hidden =
      let (unread, undeleted) = hidden_refused kit client_id id f hidden in
      (
        rw (show_template, unread, registry_not_found docs),
        rw (remove_template, undeleted, registry_not_found docs),
      )

  module _ {Q : Type 0} (dcql : Dcql Q) (now : ℕ) (client_id : String) (req : TemplateNew)
      (f : Fake) where
    -- The required members are there, the intended use is one of the client that is not revoked, and
    -- the query in its stored text parses, is valid, and lies within the registered credentials of
    -- that intended use, whose claim paths all convert.
    abbrev pub IsAuthorized : String → Type 0
    IsAuthorized raw =
        (req.name ≢ "")
        × (req.intended_use_id ≢ "")
        × (req.dcql_query ≢ [])
        × (net.encode_query req.dcql_query ≡ some raw)
        × ((iu : IntendedUse) × (q : Q) × (cs : List DcqlCredential) × (get_intended_use kit f
                client_id req.intended_use_id
              ≡ ok iu)
            × (iu.revoked_at ≡ "")
            × (dcql.parse raw ≡ some q)
            × (dcql.is_valid q ≡ true)
            × (to_dcql iu.credentials ≡ ok cs)
            × ((dcql.within_scope q cs).0 ≡ true))

    authorize_template-ok :
        (raw : String) → authorize_template kit net dcql client_id req f ≡ ok raw → IsAuthorized raw
    unfolding authorize_template
    authorize_template-ok raw h =
        let (u, complete, h1) = >>=-eq-ok (require (is_complete req) _) _ h in
        let (iu, used, h2) =
          >>=-eq-ok (active_use net (reads kit f) client_id req.intended_use_id) _ h1 in
        let (text, encoded, h3) = >>=-eq-ok (or_fail (net.encode_query req.dcql_query) _) _ h2 in
        let (q, scoped, h4) =
          >>=-eq-ok (scope_refusal (check_within_scope dcql text (iu ∷ []) req.intended_use_id)) _
            h3 in
        let same : text ≡ raw = ok-inj h4 in
        let (named, chosen, asked) = is_complete-ok req (require-ok _ _ complete) in
        let (owned, active) =
          active_use-ok net (reads kit f) client_id req.intended_use_id iu used in
        let (parsed, is_valid, same_id, (cs, converted, within)) =
          check_within_scope-ok dcql text iu req.intended_use_id q (scope_refusal-ok _ scoped) in
        (
          named,
          chosen,
          asked,
          or_fail-eq-ok _ _ encoded ∙ ap some same,
          (
            iu,
            q,
            cs,
            owned,
            active,
            subst (λ x. dcql.parse x ≡ some q) same parsed,
            is_valid,
            converted,
            within,
          ),
        )

    abbrev creation : TemplateCreation
    creation = handle_create_template kit net dcql now client_id req f

    -- the row of a template that the request makes
    abbrev pub IsRowFor : String → TemplateView → Template → Type 0
    IsRowFor raw view row =
        (row.id ≡ view.template_id)
        × (row.name ≡ req.name)
        × (row.description ≡ req.description)
        × (row.intended_use_id ≡ req.intended_use_id)
        × (row.dcql_query ≡ raw)
        × (row.created_at ≡ view.created_at)

    viewed :
        (x : Result Error Template × Fake) (view : TemplateView)
        → (view_created kit net dcql req x).reply ≡ ok view
        → (row : Template) × (x.0 ≡ ok row)
          × (view.body ≡ req)
          × (row.id ≡ view.template_id)
          × (row.created_at ≡ view.created_at)
          × ((view_created kit net dcql req x).registry ≡ x.1)
          × ((view_created kit net dcql req x).scope_denials ≡ 0)
    viewed (ok row, g) view h =
        let same = ok-inj h in
        (
          row,
          refl,
          sym (ap (λ v. v.body) same),
          ap (λ v. v.template_id) same,
          ap (λ v. v.created_at) same,
          refl,
          refl,
        )
    viewed (err e, g) view h = cc

    -- A template is answered as created only if the request has a name, an intended use and a query,
    -- the intended use is one of the caller's client and not revoked, and the query parses, is valid
    -- and lies within the registered credentials of that intended use. No scope denial is counted,
    -- and the client then reads under the answered id a row with the name, the description, the
    -- intended use and the encoded query of the request.
    pub handle_create_template-ok :
        (view : TemplateView)
        → creation.reply ≡ ok view
        → (raw : String) × (row : Template) × IsAuthorized raw
          × (get_template kit creation.registry client_id view.template_id ≡ ok row)
          × IsRowFor raw view row
          × (view.body ≡ req)
          × (creation.scope_denials ≡ 0)
    unfolding handle_create_template
    handle_create_template-ok view h =
        elim (Result-cases (authorize_template kit net dcql client_id req f)) [
          | inr (r, refused) ↦ cc (rw refused at h)
          | inl (raw, passed) ↦
              let x = create_template kit now client_id (new_row kit net dcql req raw) f in
              let (row, made, body, same_id, at, state, uncounted) =
                viewed x view (rw passed at h) in
              let (iu, owner, others) =
                (create_template-outcome kit now client_id (new_row kit net dcql req raw) f).0 row
                  made in
              let same_row =
                create_template-row kit now client_id (new_row kit net dcql req raw) f row made in
              rw passed (
                raw,
                row,
                authorize_template-ok raw passed,
                rw (state, ← same_id) owner,
                (
                  same_id,
                  ap (λ t. t.name) same_row,
                  ap (λ t. t.description) same_row,
                  ap (λ t. t.intended_use_id) same_row,
                  ap (λ t. t.dcql_query) same_row,
                  at,
                ),
                body,
                uncounted,
              )
        ]

    unviewed :
        (x : Result Error Template × Fake) (e : Error)
        → (view_created kit net dcql req x).reply ≡ err e
        → (x.0 ≡ err e) × ((view_created kit net dcql req x).registry ≡ x.1)
    unviewed (ok row, g) e h = cc
    unviewed (err x, g) e h = (cc, refl)

    -- A refusal of a template leaves the registry as it was.
    handle_create_template-err : (e : Error) → creation.reply ≡ err e → creation.registry ≡ f
    unfolding handle_create_template
    handle_create_template-err e h =
        elim (Result-cases (authorize_template kit net dcql client_id req f)) [
          | inr (r, refused) ↦ rw refused refl
          | inl (raw, passed) ↦
              let (failed, state) = unviewed _ e (rw passed at h) in
              rw passed (
                state
                ∙ (create_template-outcome kit now client_id (new_row kit net dcql req raw) f).1 e
                    failed)
        ]
