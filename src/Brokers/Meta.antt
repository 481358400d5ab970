-- ===== src/Brokers/Meta.antt =====
-- api/broker.py: the audit rows of the broker handlers, whose metadata leaves the credentials out.
use aurum_platform.Common.{String, Option, none, some, List, [], ◌∷◌, str_eq, any, if◌then◌else◌}
use aurum_platform.Json.{str, Fields, end, field, of_text}
use aurum_platform.Errors.{BrokerError, invalid, broker_code}
use aurum_platform.Models.{User, AuditRow, Request}
use aurum_platform.Deps.{client_ip}
use aurum_platform.Brokers.{TestResult}

abbrev pub secret_names : List String
secret_names = "password" ∷ "api_token" ∷ "credentials" ∷ "secret" ∷ []

unfoldable pub without_secrets : Fields → Fields
unfolding any
without_secrets end = end
without_secrets (field k v r) =
    let rest = without_secrets r in if any (str_eq k) secret_names then rest else field k v rest

-- `_audit_meta_safe`
unfoldable pub audit_meta_safe : Option String → Fields → Fields
unfolding without_secrets
audit_meta_safe none extra = without_secrets extra
audit_meta_safe (some broker_type) extra =
    field "broker_type" (str broker_type) (without_secrets extra)

-- The row that the calls of `write_audit` in this file make.
unfoldable pub audit_row : Request → String → String → User → Option String → Fields → AuditRow
audit_row r action status user resource metadata = record {
  action = action;
  status = status;
  user_id = some user.id;
  resource = resource;
  ip_address = client_ip r;
  user_agent = r.user_agent;
  request_id = r.request_id;
  metadata = some metadata;
}

-- `"success" if result.success else "failure"`
unfoldable pub outcome : TestResult → String
outcome result = if result.success then "success" else "failure"

-- What `broker_connect` audits of an error of the broker.
unfoldable pub refusal_meta : BrokerError → String → Option String → Fields → Fields
unfolding broker_code
refusal_meta invalid message code rest =
    field "reason" (str "validation_error") (field "detail" (str message) rest)
refusal_meta kind message code rest =
    field "reason" (str (broker_code kind)) (field "error_code" (of_text code) rest)
