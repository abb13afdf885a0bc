-- ===== src/App/Taxonomy.antt =====
-- Which HTTP status the kit gives the result codes of the stores.
use eudi_api_management.Base.{
  String, ◌≡◌, refl, List, [], ◌∷◌, Option, none, some, ◌==◌, if◌then◌else◌,
}
use eudi_api_management.Errors.{Kit, NotFoundIs404}
use eudi_api_management.App.{Reason, reasons}
use Prim.Native.String.{◌++◌}

abbrev find_reason : String → List Reason → Option Reason
find_reason name [] = none
find_reason name (r ∷ rs) =
    let rest = find_reason name rs in if r.name == name then some r else rest

-- The kit's documented resolution: the last segment of a code, in camel case, selects the reason that
-- was registered under it, and the reason gives the status.
pub record Resolves (kit : Kit) (registered : List Reason) (camel : String → String) : Type 0 where
  pub not_found : camel "not_found" ≡ "notFound"
  pub not_cancellable : camel "not_cancellable" ≡ "notCancellable"
  pub intended_use_revoked : camel "intended_use_revoked" ≡ "intendedUseRevoked"
  pub status :
      (domain segment : String) (r : Reason)
      → find_reason (camel segment) registered ≡ some r
      → kit.status_code (kit.from_result_code ("err:" ++ (domain ++ (":" ++ segment))))
        ≡ some r.status

module _ (kit : Kit) (camel : String → String) (resolves : Resolves kit reasons camel) where
  -- The status of a result code whose reason is registered under a given name.
  status_of :
      (domain segment name : String) (r : Reason)
      → camel segment ≡ name
      → find_reason name reasons ≡ some r
      → kit.status_code (kit.from_result_code ("err:" ++ (domain ++ (":" ++ segment))))
        ≡ some r.status
  status_of domain segment name r spelled found =
      resolves.status domain segment r (rw spelled found)

  -- The not-found codes of both stores have status 404 by the reason that init registers.
  reasons-NotFoundIs404 : NotFoundIs404 kit
  reasons-NotFoundIs404 = record {
    registry = status_of "registry" "not_found" "notFound" _ resolves.not_found refl;
    session = status_of "session" "not_found" "notFound" _ resolves.not_found refl;
  }

  -- The refusals of both stores have the statuses that the API documents, by the reasons that init
  -- registers and the kit's documented resolution of a code: 404 for not found, 409 for a session
  -- that cannot be cancelled, 422 for an intended use that is revoked.
  reasons-statuses :
      (kit.status_code (kit.from_result_code "err:registry:not_found") ≡ some 404)
      × (kit.status_code (kit.from_result_code "err:session:not_found") ≡ some 404)
      × (kit.status_code (kit.from_result_code "err:session:not_cancellable") ≡ some 409)
      × (kit.status_code (kit.from_result_code "err:registry:intended_use_revoked") ≡ some 422)
  reasons-statuses = (
    reasons-NotFoundIs404.registry,
    reasons-NotFoundIs404.session,
    status_of "session" "not_cancellable" "notCancellable" _ resolves.not_cancellable refl,
    status_of "registry" "intended_use_revoked" "intendedUseRevoked" _ resolves.intended_use_revoked
        refl,
  )
