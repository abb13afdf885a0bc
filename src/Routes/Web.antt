-- ===== src/Routes/Web.antt =====
-- routes/sessions.go: what the session and template handlers share: refusals, the tests of origins and
-- the answers to a failed scope check. `net/url` and go-eudi-rpcert are arguments.
use Prim.Native.Char.{Char, code}
use eudi_api_management.Base.{
  ℕ, nat_eq, String, Bool, true, false, ◌&&◌, ◌||◌, not, Option, none, some, List, [], ◌∷◌, ◌==◌,
  if◌then◌else◌, any,
}
use eudi_api_management.Base.Results.{Result, ok, err}
use eudi_api_management.Base.Dict.{Dict}
use eudi_api_management.Text.{append}
use eudi_api_management.Errors.{Error, new_problem, detailed_problem, bad_request}
use eudi_api_management.Scope.{ScopeFailure, unparsable, invalid, exceeded, failed}
use eudi_api_management.Verifier.{RegistrationRef}

pub record Url : Type 0 where
  pub scheme : String
  pub host : String
  pub path : String
  pub raw_query : String
  pub fragment : String
  pub has_user : Bool

-- An error of rpcert.NewRegistrationRef: its message, and whether it is an ErrRegistrationRef.
pub record RefFault : Type 0 where
  pub message : String
  pub is_registration_ref : Bool

abbrev clause_after : Char → String → Option String
clause_after c String.[] = none
clause_after c (String.◌∷◌ d s) = if nat_eq (code c) 58 && nat_eq (code d) 32 then some s else none

-- what follows the last ": " of a text
unfoldable pub last_clause : String → Option String
last_clause String.[] = none
last_clause (String.◌∷◌ c s) = elim (last_clause s) [ some t ↦ some t | none ↦ clause_after c s ]

-- registrationRefFault
unfoldable pub registration_ref_fault : RefFault → String
unfolding last_clause
registration_ref_fault e = elim (last_clause e.message) [
  | none ↦ e.message
  | some clause ↦ if e.is_registration_ref then clause else e.message
]

-- url.Parse, strings.EqualFold, the verb %q of fmt, json.Marshal and json.Unmarshal of an object,
-- and rpcert.NewRegistrationRef
pub record Net : Type 0 where
  pub parse_url : String → Option Url
  pub equal_fold : String → String → Bool
  pub quote : String → String
  pub encode_query : Dict String → Option String
  pub decode_object : String → Option (Dict String)
  pub new_registration_ref : String → String → String → String → Result RefFault RegistrationRef

-- An error of a handler, and the one that also counts as a scope denial.
pub data Refusal : Type 0 where
  plain : Error → Refusal
  scope_denied : List String → Refusal

-- strings.Join(offenses, "; ")
abbrev join_offenses : List String → String
join_offenses [] = ""
join_offenses (o ∷ []) = o
join_offenses (o ∷ p ∷ ps) = append o (append "; " (join_offenses (p ∷ ps)))

unfoldable pub error_of : Refusal → Error
error_of (plain e) = e
error_of (scope_denied offenses) =
    detailed_problem "err:client:scopeExceeded" (join_offenses offenses)

-- how often a refusal counts as a scope denial
abbrev pub denials : Refusal → ℕ
denials (plain e) = 0
denials (scope_denied offenses) = 1

abbrev pub refuse : {A : Type 0} → Error → Result Refusal A
refuse e = err (plain e)

abbrev pub lift : {A : Type 0} → Result Error A → Result Refusal A
lift (ok a) = ok a
lift (err e) = err (plain e)

-- a guard of the handler
abbrev pub require : Bool → Error → Result Refusal Unit
require true e = ok tt
require false e = err (plain e)

module _ (net : Net) where
  unfoldable is_bare_origin : Option Url → Bool
  is_bare_origin none = false
  is_bare_origin (some u) =
      u.scheme == "https"
      && not (u.host == "")
      && u.path == ""
      && u.raw_query == ""
      && u.fragment == ""
      && not u.has_user

  -- isWebOrigin
  unfoldable pub is_web_origin : String → Bool
  unfolding is_bare_origin
  is_web_origin raw = is_bare_origin (net.parse_url raw)

  unfoldable origin_of : Option Url → Option String
  origin_of none = none
  origin_of (some u) =
      if u.scheme == "" || u.host == "" then none else some (append u.scheme (append "://" u.host))

  abbrev folds_to_any : Option String → List String → Bool
  folds_to_any none allowed = false
  folds_to_any (some origin) allowed = any (λ a. net.equal_fold a origin) allowed

  -- originAllowed
  unfoldable pub origin_allowed : String → List String → Bool
  unfolding origin_of
  origin_allowed raw allowed = folds_to_any (origin_of (net.parse_url raw)) allowed

-- the errors of CheckWithinScope as createSession and createTemplate answer them
unfoldable pub scope_refusal : {A : Type 0} → Result ScopeFailure A → Result Refusal A
scope_refusal (ok a) = ok a
scope_refusal (err unparsable) = refuse (bad_request "invalid dcqlQuery")
scope_refusal (err invalid) = refuse (bad_request "invalid dcqlQuery")
scope_refusal (err (exceeded offenses)) = err (scope_denied offenses)
scope_refusal (err (failed what)) = refuse (Error.fault what)

abbrev pub origin_fault : Error
origin_fault = new_problem "err:client:originNotRegistered"
