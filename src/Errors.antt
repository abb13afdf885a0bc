-- ===== src/Errors.antt =====
-- The errors that handlers and stores return, and the parts of go-platform-kit/errors and azugo
-- that the program calls: internal/sessiondb/db.go and internal/registrydb/db.go (resultError),
-- routes/authmw.go (isNotFoundError, unauthorized).
use Prim.Native.String.{◌++◌}
use eudi_api_management.Base.{
  ℕ, String, ◌≡◌, Bool, false, Option, none, some, nat_eq, ◌==◌, if◌then◌else◌,
}
use eudi_api_management.Base.Results.{Result, err}

-- A problem+json document before it is rendered; an option that was not given is `none`.
pub record Problem : Type 0 where
  pub code : String
  pub public_detail : Option String
  pub status : Option ℕ
  pub source : Option String
  pub title : Option String

pub data Error : Type 0 where
  problem : Problem → Error
  -- a downstream problem relayed with its status
  relayed : Problem → ℕ → Error
  bad_request : String → Error
  param_invalid : String → Error
  -- any other error: of a driver, a decoder or `fmt.Errorf`
  fault : String → Error

-- pkerrors.NewProblem(code)
abbrev pub new_problem : String → Error
new_problem code =
    problem
      (record { code = code; public_detail = none; status = none; source = none; title = none })

-- pkerrors.NewProblem(code, WithPublicDetail(detail))
abbrev pub detailed_problem : String → String → Error
detailed_problem code detail = problem (record {
  code = code;
  public_detail = some detail;
  status = none;
  source = none;
  title = none;
})

-- What is called of go-platform-kit/errors and of the `StatusCode` method of an error.
pub record Kit : Type 0 where
  pub from_result_code : String → Error
  pub status_code : Error → Option ℕ

-- The documented mapping: a `…:not_found` result code is an error of status 404.
pub record NotFoundIs404 (kit : Kit) : Type 0 where
  pub registry : kit.status_code (kit.from_result_code "err:registry:not_found") ≡ some 404
  pub session : kit.status_code (kit.from_result_code "err:session:not_found") ≡ some 404

-- resultError of both stores; `none` is the nil error
unfoldable pub result_error : Kit → String → Option Error
result_error kit code = if code == "" then none else some (kit.from_result_code ("err:" ++ code))

-- `return …, resultError(code)` with a code that is not empty
abbrev pub refuse : {A : Type 0} → Kit → String → Result Error A
refuse kit code = err (kit.from_result_code ("err:" ++ code))

abbrev has_status : Option ℕ → ℕ → Bool
has_status none n = false
has_status (some m) n = nat_eq m n

unfoldable pub is_not_found_error : Kit → Error → Bool
is_not_found_error kit e = has_status (kit.status_code e) 404

-- the single 401 body of the API-key boundary
abbrev pub unauthorized : Error
unauthorized = new_problem "err:client:unauthorized"
