-- ===== src/Errors.antt =====
-- src/errors/mod.rs: the error type of the HTTP services.
use Prim.Native.String.{◌++◌ as str_append}
use legaltech_contract_autom.Common.{ℕ, String, show}

-- An sqlx::Error or an anyhow::Error carries nothing that the code reads.
pub data AppError : Type 0 where
  validation authentication authorization not_found conflict : String → AppError
  rate_limited : (retry_after_seconds : ℕ) → AppError
  payload_too_large : AppError
  unprocessable_entity : String → AppError
  analysis_in_progress database : AppError
  external_service : String → AppError
  internal : AppError

unfoldable pub status_code : AppError → ℕ
status_code (validation message) = 400
status_code (authentication message) = 401
status_code (authorization message) = 403
status_code (not_found message) = 404
status_code (conflict message) = 409
status_code (rate_limited seconds) = 429
status_code payload_too_large = 413
status_code (unprocessable_entity message) = 422
status_code analysis_in_progress = 409
status_code database = 500
status_code (external_service message) = 502
status_code internal = 500

unfoldable pub error_code : AppError → String
error_code (validation message) = "validation_error"
error_code (authentication message) = "authentication_error"
error_code (authorization message) = "authorization_error"
error_code (not_found message) = "not_found"
error_code (conflict message) = "conflict"
error_code (rate_limited seconds) = "rate_limited"
error_code payload_too_large = "payload_too_large"
error_code (unprocessable_entity message) = "unprocessable_entity"
error_code analysis_in_progress = "analysis_in_progress"
error_code database = "database_error"
error_code (external_service message) = "external_service_error"
error_code internal = "internal_error"

unfoldable pub public_message : AppError → String
public_message (validation message) = message
public_message (authentication message) = message
public_message (authorization message) = message
public_message (not_found message) = message
public_message (conflict message) = message
public_message (rate_limited seconds) =
    str_append (str_append "too many requests; retry after " (show seconds)) " seconds"
public_message payload_too_large = "request body is too large"
public_message (unprocessable_entity message) = message
public_message analysis_in_progress = "an analysis for this contract is already in progress"
public_message database = "an internal error occurred"
public_message (external_service message) = message
public_message internal = "an internal error occurred"
