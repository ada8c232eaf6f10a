-- ===== src/Errors.antt =====
-- The application's errors, pkg/errors/errors.go: codes, the HTTP status of a code, and the error with
-- its code, message and the error that it wraps, given by its text. Details are left out: nothing reads
-- them.
mod Laws
mod Tests
use Prim.Native.String.{◌++◌}
use verustcode.Base.{ℕ, String, Option, none, some}

pub data ErrorCode : Type 0 where
  internal validation not_found conflict forbidden unauthorized : ErrorCode
  git_clone git_auth git_not_found git_webhook : ErrorCode
  agent_not_found agent_unavailable agent_timeout agent_execution : ErrorCode
  review_not_found review_failed review_pending : ErrorCode
  db_connection db_query db_migration : ErrorCode
  config_not_found config_invalid config_parse : ErrorCode
  admin_credentials_empty password_complexity jwt_secret_invalid : ErrorCode

unfoldable pub code_text : ErrorCode → String
code_text internal = "E1000"
code_text validation = "E1001"
code_text not_found = "E1002"
code_text conflict = "E1003"
code_text forbidden = "E1004"
code_text unauthorized = "E1005"
code_text git_clone = "E2001"
code_text git_auth = "E2002"
code_text git_not_found = "E2003"
code_text git_webhook = "E2004"
code_text agent_not_found = "E3001"
code_text agent_unavailable = "E3002"
code_text agent_timeout = "E3003"
code_text agent_execution = "E3004"
code_text review_not_found = "E4001"
code_text review_failed = "E4002"
code_text review_pending = "E4003"
code_text db_connection = "E5001"
code_text db_query = "E5002"
code_text db_migration = "E5003"
code_text config_not_found = "E6001"
code_text config_invalid = "E6002"
code_text config_parse = "E6003"
code_text admin_credentials_empty = "E6004"
code_text password_complexity = "E6005"
code_text jwt_secret_invalid = "E6006"

pub record AppError : Type 0 where
  pub code : ErrorCode
  pub message : String
  pub err : Option String

-- `Error`.
unfoldable pub error_text : AppError → String
unfolding code_text
error_text e = elim e.err [
  | none ↦ "[" ++ (code_text e.code ++ ("] " ++ e.message))
  | some inner ↦ "[" ++ (code_text e.code ++ ("] " ++ (e.message ++ (": " ++ inner))))
]

-- The statuses of net/http that the code names.
unfoldable pub status_of : ErrorCode → ℕ
status_of not_found = 404
status_of git_not_found = 404
status_of agent_not_found = 404
status_of review_not_found = 404
status_of validation = 400
status_of unauthorized = 401
status_of git_auth = 401
status_of forbidden = 403
status_of conflict = 409
status_of agent_timeout = 504
status_of agent_unavailable = 503
status_of _ = 500

-- `HTTPStatus`.
unfoldable pub http_status : AppError → ℕ
unfolding status_of
http_status e = status_of e.code

-- `New` and `Wrap`.
unfoldable pub new : ErrorCode → String → AppError
new code message = record { code = code; message = message; err = none }

unfoldable pub wrap : ErrorCode → String → String → AppError
wrap code message inner = record { code = code; message = message; err = some inner }

-- The constructors of common errors; `err_internal` may be given a nil error.
unfoldable pub err_internal : String → Option String → AppError
err_internal message inner = record { code = internal; message = message; err = inner }

unfoldable pub err_validation : String → AppError
unfolding new
err_validation message = new validation message

unfoldable pub err_not_found : String → AppError
unfolding new
err_not_found resource = new not_found (resource ++ " not found")

unfoldable pub err_unauthorized : String → AppError
unfolding new
err_unauthorized message = new unauthorized message

unfoldable pub err_forbidden : String → AppError
unfolding new
err_forbidden message = new forbidden message
