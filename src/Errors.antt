-- ===== src/Errors.antt =====
-- The exceptions of the application and what the client is sent for them: core/errors.py and
-- brokers/exceptions.py, with the two subclasses of `AppError` in api/broker.py and api/aurum.py.
use aurum_platform.Common.{ℕ, String, Option}

-- The subclasses of `AppError`.
pub data AppError : Type 0 where
  internal auth forbidden not_found conflict broker_test_failed validation bad_request : AppError

-- The subclasses of `BrokerError`.
pub data BrokerError : Type 0 where
  base auth_failed unknown_account connection invalid : BrokerError

-- `network` is an error of the HTTP client, `system_exit` ends a process, and `other` is any
-- exception without a class of its own here, by the name of its class.
pub data Exn : Type 0 where
  app : AppError → String → Exn
  broker : BrokerError → String → Option String → Exn
  ownership lookup_error : Exn
  crypto : String → Exn
  network : String → Exn
  http : ℕ → String → Exn
  request_validation rate_limited database : Exn
  system_exit : Exn
  other : String → Exn

-- The class attribute `status_code`.
unfoldable pub status_code : AppError → ℕ
status_code internal = 500
status_code auth = 401
status_code forbidden = 403
status_code not_found = 404
status_code conflict = 409
status_code broker_test_failed = 422
status_code validation = 422
status_code bad_request = 400

-- The class attribute `code` of an `AppError`.
unfoldable pub app_code : AppError → String
app_code internal = "internal_error"
app_code auth = "unauthorized"
app_code forbidden = "forbidden"
app_code not_found = "not_found"
app_code conflict = "conflict"
app_code broker_test_failed = "broker_test_failed"
app_code validation = "validation_error"
app_code bad_request = "bad_request"

-- The class attribute `code` of a `BrokerError`.
unfoldable pub broker_code : BrokerError → String
broker_code base = "broker_error"
broker_code auth_failed = "broker_auth_failed"
broker_code unknown_account = "broker_not_found"
broker_code connection = "broker_connection_error"
broker_code invalid = "broker_validation_error"

-- The JSON body of an error response. `status` is also the status of the response.
pub record Problem : Type 0 where
  pub status : ℕ
  pub code : String
  pub message : String
  pub request_id : Option ℕ

-- `_problem`
unfoldable pub problem : ℕ → String → String → Option ℕ → Problem
problem status code message request_id = record {
  status = status;
  code = code;
  message = message;
  request_id = request_id;
}

-- The handlers that `install_error_handlers` registers.
unfoldable pub handle_error : Option ℕ → Exn → Problem
unfolding problem status_code app_code
handle_error rid (app e message) = problem (status_code e) (app_code e) message rid
handle_error rid (http status detail) = problem status "http_error" detail rid
handle_error rid request_validation = problem 422 "validation_error" "request validation failed" rid
handle_error rid rate_limited = problem 429 "rate_limited" "too many requests" rid
handle_error rid database = problem 500 "database_error" "database error" rid
handle_error rid _ = problem 500 "internal_error" "internal server error" rid
