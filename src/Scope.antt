-- ===== src/Scope.antt =====
-- internal/scope/scope.go: a query against the registered scope of an intended use. go-dcql is an
-- argument.
pub mod Granted
use eudi_api_management.Base.{
  ℕ, String, Bool, true, false, not, Option, none, some, List, [], ◌∷◌, ◌==◌, if◌then◌else◌,
}
use eudi_api_management.Base.Int64.{ℤ, pos, negsuc}
use eudi_api_management.Base.Results.{Result, ok, err, ◌>>=◌, or_fail}
use eudi_api_management.Registry.{
  JsonElement, null, text, float, number, other, RegisteredCredential, IntendedUse,
}

-- dcql.PathElement
pub data PathElement : Type 0 where
  wildcard : PathElement
  key : String → PathElement
  index : ℕ → PathElement

-- dcql.RegisteredCredential
pub record DcqlCredential : Type 0 where
  pub format : String
  pub doctypes_or_vcts : List String
  pub all_claims : Bool
  pub claims : List (List PathElement)

-- The errors of CheckWithinScope. `exceeded` is *ScopeError with its offenses.
pub data ScopeFailure : Type 0 where
  unparsable invalid : ScopeFailure
  exceeded : List String → ScopeFailure
  failed : String → ScopeFailure

-- dcql.Parse, Query.Validate and Query.WithinScope; the last gives its offenses too
pub record Dcql (Q : Type 0) : Type 0 where
  pub parse : String → Option Q
  pub is_valid : Q → Bool
  pub within_scope : Q → List DcqlCredential → Bool × List String

unfoldable pub to_path_element : JsonElement → Result ScopeFailure PathElement
to_path_element null = ok wildcard
to_path_element (text s) = ok (key s)
to_path_element (float negative cut) =
    if negative then err (failed "negative array index") else ok (index cut)
to_path_element (number (some (pos n))) = ok (index n)
to_path_element (number (some (negsuc n))) = err (failed "array index must be non-negative")
to_path_element (number none) = err (failed "array index must be an integer")
to_path_element (other type) = err (failed "unsupported path element type")

unfoldable pub to_claim_path : List JsonElement → Result ScopeFailure (List PathElement)
unfolding to_path_element
to_claim_path [] = ok []
to_claim_path (e ∷ es) = do elem ← to_path_element e; elems ← to_claim_path es; ok (elem ∷ elems)

unfoldable to_claim_paths : List (List JsonElement) → Result ScopeFailure (List (List PathElement))
unfolding to_claim_path
to_claim_paths [] = ok []
to_claim_paths (p ∷ ps) = do path ← to_claim_path p; paths ← to_claim_paths ps; ok (path ∷ paths)

unfoldable pub to_dcql : List RegisteredCredential → Result ScopeFailure (List DcqlCredential)
unfolding to_claim_paths
to_dcql [] = ok []
to_dcql (c ∷ cs) = do
  claims ← to_claim_paths c.claims
  rest ← to_dcql cs
  ok (
      record {
        format = c.format;
        doctypes_or_vcts = c.doctypes_or_vcts;
        all_claims = c.all_claims;
        claims = claims;
      }
      ∷ rest)

-- registeredCredentials
unfoldable pub registered_credentials :
    List IntendedUse → String → Result ScopeFailure (List DcqlCredential)
unfolding to_dcql
registered_credentials [] id = err (failed "intended use not among those provided")
registered_credentials (iu ∷ ius) id = elim (iu.intended_use_id == id) [
  | true ↦ to_dcql iu.credentials
  | false ↦ registered_credentials ius id
]

abbrev judged : {Q : Type 0} → Q → Bool × List String → Result ScopeFailure Q
judged q (within, offenses) = if within then ok q else err (exceeded offenses)

module _ {Q : Type 0} (dcql : Dcql Q) where
  abbrev validated : Q → Result ScopeFailure Q
  validated q = if dcql.is_valid q then ok q else err invalid

  -- CheckWithinScope
  unfoldable pub check_within_scope : String → List IntendedUse → String → Result ScopeFailure Q
  unfolding registered_credentials
  check_within_scope raw ius id = do
    parsed ← or_fail (dcql.parse raw) unparsable
    q ← validated parsed
    registered ← registered_credentials ius id
    judged q (dcql.within_scope q registered)
