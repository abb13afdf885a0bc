-- ===== src/Routes/Templates.antt =====
-- routes/templates.go: the template handlers, over the in-memory registry.
pub mod Outcomes
use eudi_api_management.Base.{
  ℕ, String, Bool, true, false, ◌&&◌, ◌||◌, not, Option, none, some, List, [], ◌∷◌, ◌==◌,
  if◌then◌else◌,
}
use eudi_api_management.Base.Results.{Result, ok, err, ◌>>=◌, or_fail}
use eudi_api_management.Base.Dict.{Dict}
use eudi_api_management.Errors.{Error, fault, bad_request, new_problem, Kit, is_not_found_error}
use eudi_api_management.Registry.{IntendedUse, Template}
use eudi_api_management.Registry.Fake.{
  Fake, reads, create_template, get_template, own_templates, delete_template,
}
use eudi_api_management.Scope.{Dcql, check_within_scope}
use eudi_api_management.Routes.Web.{
  Net, Refusal, plain, denials, error_of, lift, require, scope_refusal,
}
use eudi_api_management.Routes.Prepare.{active_use}

-- api.TemplateNew
pub record TemplateNew : Type 0 where
  pub name : String
  pub description : String
  pub intended_use_id : String
  pub dcql_query : Dict String

-- api.Template
pub record TemplateView : Type 0 where
  pub body : TemplateNew
  pub template_id : String
  pub created_at : ℕ

-- What createTemplate did: the answer, the registry after it, and how often it called IncScopeDenial.
pub record TemplateCreation : Type 0 where
  pub reply : Result Error TemplateView
  pub registry : Fake
  pub scope_denials : ℕ

abbrev pub has_query : Dict String → Bool
has_query [] = false
has_query (entry ∷ entries) = true

-- the answer to a not-found outcome of the store
unfoldable pub template_error : Kit → Error → Error
template_error kit e = if is_not_found_error kit e then new_problem "err:template:notFound" else e

module _ (kit : Kit) (net : Net) where
  abbrev decoded_query : String → Result Error (Dict String)
  decoded_query raw =
      if raw == "" then ok [] else or_fail (net.decode_object raw) (fault "json: cannot unmarshal")

  -- templateToAPI
  unfoldable template_to_api : Template → Result Error TemplateView
  template_to_api t = do
    q ← decoded_query t.dcql_query
    ok (record {
      body = record {
        name = t.name;
        description = t.description;
        intended_use_id = t.intended_use_id;
        dcql_query = q;
      };
      template_id = t.id;
      created_at = t.created_at;
    })

  -- the loop of listTemplates
  unfoldable all_to_api : List Template → Result Error (List TemplateView)
  unfolding template_to_api
  all_to_api [] = ok []
  all_to_api (t ∷ ts) = do view ← template_to_api t; views ← all_to_api ts; ok (view ∷ views)

  -- listTemplates
  unfoldable pub list_templates : String → Fake → Result Error (List TemplateView)
  unfolding all_to_api
  list_templates client_id f = (reads kit f).list_templates client_id >>= all_to_api

  abbrev found_or : {A : Type 0} → Result Error A → Result Error A
  found_or (ok a) = ok a
  found_or (err e) = err (template_error kit e)

  -- getTemplate
  unfoldable pub show_template : String → String → Fake → Result Error TemplateView
  unfolding template_error template_to_api
  show_template client_id id f = found_or (get_template kit f client_id id) >>= template_to_api

  abbrev deleted_or : Result Error Unit × Fake → Result Error Unit × Fake
  deleted_or (outcome, f) = (found_or outcome, f)

  -- deleteTemplate
  unfoldable pub remove_template : String → String → Fake → Result Error Unit × Fake
  unfolding template_error
  remove_template client_id id f = deleted_or (delete_template kit client_id id f)

  module _ {Q : Type 0} (dcql : Dcql Q) where
    -- the part of createTemplate before the write, for a body that decodes: the stored query
    unfoldable pub authorize_template : String → TemplateNew → Fake → Result Refusal String
    unfolding active_use scope_refusal
    authorize_template client_id req f = do
      complete ←
          require (not (req.name == "" || req.intended_use_id == "") && has_query req.dcql_query)
            (bad_request "name, intendedUseId, and dcqlQuery are required")
      iu ← active_use net (reads kit f) client_id req.intended_use_id
      raw ← or_fail (net.encode_query req.dcql_query) (plain (bad_request "invalid dcqlQuery"))
      q ← scope_refusal (check_within_scope dcql raw (iu ∷ []) req.intended_use_id)
      ok raw

    abbrev view_created : TemplateNew → Result Error Template × Fake → TemplateCreation
    view_created req (err e, f) = record { reply = err e; registry = f; scope_denials = 0 }
    view_created req (ok t, f) = record {
      reply = ok (record { body = req; template_id = t.id; created_at = t.created_at });
      registry = f;
      scope_denials = 0;
    }

    abbrev pub new_row : TemplateNew → String → Template
    new_row req raw = record {
      id = "";
      name = req.name;
      description = req.description;
      intended_use_id = req.intended_use_id;
      dcql_query = raw;
      created_at = 0;
    }

    abbrev write_authorized :
        ℕ → String → TemplateNew → Fake → Result Refusal String → TemplateCreation
    write_authorized now client_id req f (err r) = record {
      reply = err (error_of r);
      registry = f;
      scope_denials = denials r;
    }
    write_authorized now client_id req f (ok raw) =
        view_created req (create_template kit now client_id (new_row req raw) f)

    -- createTemplate
    unfoldable pub handle_create_template : ℕ → String → TemplateNew → Fake → TemplateCreation
    unfolding authorize_template error_of
    handle_create_template now client_id req f =
        write_authorized now client_id req f (authorize_template client_id req f)
