-- ===== src/Server/Auth/Service.antt =====
-- require_service of server/auth.py, and to_http_exception of server/errors.py: the HTTP statuses of
-- a failure.
use decision_maker_flow.Prelude.{ℕ, ◌≡◌, refl, String, Option, Outcome, ok, raised}
use decision_maker_flow.Prelude.Int.{ℤ}
use decision_maker_flow.Server.Auth.{
  Crypto, Reason, malformed, bad_version, bad_signature, expired, wrong_service, missing_session,
  VerifyError, auth_error, uncaught, TokenClaims,
}
use decision_maker_flow.Server.Auth.Verify.{verify_session_token}

-- The `error` of a response's body.
pub data ErrorName : Type 0 where
  reason : Reason → ErrorName
  llm_timeout config_error : ErrorName

-- An HTTPException, or another exception that passes through.
pub data HttpError : Type 0 where
  http : (status_code : ℕ) (error : ErrorName) → HttpError
  passed_on : HttpError

abbrev pub dep_status : Reason → ℕ
dep_status wrong_service = 403
dep_status _ = 401

abbrev pub translate : Outcome VerifyError TokenClaims → Outcome HttpError TokenClaims
translate (ok claims) = ok claims
translate (raised (auth_error r)) = raised (http (dep_status r) (reason r))
translate (raised uncaught) = raised passed_on

-- The dependency that `require_service` makes for a service.
unfoldable pub require_service :
    (crypto : Crypto) (service_id : String) (authorization : Option String) (now : ℤ)
    (secret : crypto.Bytes)
    → Outcome HttpError TokenClaims
require_service crypto service_id authorization now secret =
    translate (verify_session_token crypto authorization service_id now secret)

-- The exceptions that errors.py knows, and all others.
pub data DomainError : Type 0 where
  auth : Reason → DomainError
  llm_timeout_error : DomainError
  config_error : DomainError
  other : DomainError

abbrev auth_status : Reason → ℕ
auth_status wrong_service = 403
auth_status _ = 401

unfoldable pub to_http_exception : DomainError → HttpError
to_http_exception (auth r) = http (auth_status r) (reason r)
to_http_exception llm_timeout_error = http 408 llm_timeout
to_http_exception DomainError.config_error = http 500 ErrorName.config_error
to_http_exception other = passed_on

status_agrees : (r : Reason) → to_http_exception (auth r) ≡ http (dep_status r) (reason r)
unfolding to_http_exception
status_agrees malformed = refl
status_agrees bad_version = refl
status_agrees bad_signature = refl
status_agrees expired = refl
status_agrees wrong_service = refl
status_agrees missing_session = refl

-- A token that is refused with a reason gets the response that `to_http_exception` makes of the
-- reason: the two tables of statuses agree.
pub refused :
    (crypto : Crypto) (service_id : String) (authorization : Option String) (now : ℤ)
    (secret : crypto.Bytes) (r : Reason)
    → verify_session_token crypto authorization service_id now secret ≡ raised (auth_error r)
    → require_service crypto service_id authorization now secret
      ≡ raised (to_http_exception (auth r))
unfolding require_service
refused crypto service_id authorization now secret r h = rw (h, status_agrees r) refl
