-- ===== src/Brokers/Mt5/Bridge.antt =====
-- brokers/mt5_adapter.py: the credentials, the canned answers of the test mode, and the process that
-- runs mt5_runner.py. The settings, that process and Python's numbers are parameters.
use aurum_platform.Common.{
  String, Bool, true, false, Option, none, some, List, [], ◌∷◌, ◌<>◌, str_eq, ◌||◌, is_empty,
  if◌then◌else◌,
}
use aurum_platform.Json.{
  Value, null, float, str, obj, Fields, end, field, get, as_text, truthy_at, truthy,
}
use aurum_platform.Errors.{Exn, broker, base, auth_failed, connection, invalid, other}
use aurum_platform.Exec.{pure, raise, or_raise, ◌>>=◌}
use aurum_platform.Services.{Attempt, returned, raised}
use aurum_platform.Brokers.{TestResult, AccountInfo, Tick, Call}
use aurum_platform.Brokers.Dicts.{as_dict, get_or}

-- How the process of the runner ends: its file is not found, it takes too long, it exits with
-- another code than 0, as printed, it writes nothing, or it writes a text, with its JSON value where
-- it has one.
pub data Ended : Type 0 where
  not_found timed_out silent : Ended
  exited : String → Ended
  wrote : Option Value → Ended

-- `int(v)`, `float(v)`, `int(float)` and `datetime.fromtimestamp` give a value or raise a class.
pub record Host : Type 0 where
  pub test_mode : Bool
  pub runner : Option String
  pub spawn : String → Fields → Ended
  pub text_of : Value → String
  pub to_int : Value → Attempt Value
  pub to_float : Value → Attempt Value
  pub from_timestamp : Value → Attempt Value
  pub now_ms : Value

abbrev pub required_fields : List String
required_fields = "account" ∷ "password" ∷ "server" ∷ []

-- A refusal of `int`.
unfoldable pub integer_or_raise : Attempt Value → Call (Unit {0})
unfolding pure raise
integer_or_raise (returned n) = pure tt
integer_or_raise (raised class) =
    if str_eq class "TypeError" || str_eq class "ValueError"
    then raise (broker invalid "account must be an integer" none)
    else raise (other class)

abbrev pub unconfigured : Exn
unconfigured =
    broker connection
      "MT5 runner not configured (WINDOWS_HOST_RUNNER unset); MT5 is unavailable in Linux container"
      none

-- `err_code in {"AUTH_FAILED", "10004"}`
unfoldable pub is_auth_code : Option String → Bool
is_auth_code none = false
is_auth_code (some code) = str_eq code "AUTH_FAILED" || str_eq code "10004"

module _ (host : Host) where
  -- `_validate`
  unfoldable pub validate : Fields → Call (Unit {0})
  unfolding integer_or_raise ◌>>=◌
  validate credentials = do
    account ←
        or_raise (get "account" credentials)
          (broker invalid "missing credential field: account" none)
    password ←
        or_raise (get "password" credentials)
          (broker invalid "missing credential field: password" none)
    server ←
        or_raise (get "server" credentials) (broker invalid "missing credential field: server" none)
    integer_or_raise (host.to_int account)

  -- The runner writes texts for `error_code` and `error_message`. Another value counts as no code,
  -- and as its text.
  unfoldable pub message_of : Option Value → String
  message_of none = "MT5 operation failed"
  message_of (some (str message)) = message
  message_of (some v) = host.text_of v

  unfoldable pub answer_of : Fields → Call Value
  unfolding message_of is_auth_code truthy pure raise
  answer_of result =
      let code = as_text (get "error_code" result) in
      let message = message_of (get "error_message" result) in
      if truthy_at (get "ok" result)
      then pure (get_or "data" (obj end) result)
      else if is_auth_code code
      then raise (broker auth_failed message code)
      else raise (broker base message code)

  unfoldable pub ended : String → Ended → Call Value
  unfolding as_dict answer_of pure raise ◌>>=◌
  ended timeout not_found = raise (broker connection "MT5 runner binary not found" none)
  ended timeout timed_out =
      raise (broker connection ("MT5 runner timeout after " <> timeout <> "s") none)
  ended timeout (exited code) =
      raise (broker connection ("MT5 runner failed (exit " <> code <> ")") none)
  ended timeout silent = answer_of end
  ended timeout (wrote none) = raise (broker connection "MT5 runner returned invalid JSON" none)
  ended timeout (wrote (some v)) = do result ← as_dict v; answer_of result

  -- `if not runner`, and the process
  unfoldable pub run_payload : Option String → Fields → String → Call Value
  unfolding ended is_empty raise
  run_payload none payload timeout = raise unconfigured
  run_payload (some runner) payload timeout =
      if is_empty runner then raise unconfigured else ended timeout (host.spawn runner payload)

  -- `_run_subprocess`, with the printed form of the timeout
  unfoldable pub run_subprocess : String → Fields → Fields → String → Call Value
  unfolding run_payload
  run_subprocess operation credentials args timeout =
      run_payload host.runner
        (field "operation" (str operation)
          (field "credentials" (obj credentials) (field "args" (obj args) end)))
        timeout

  -- `str(credentials[k])`, for a key that `_validate` has seen
  abbrev pub shown : String → Fields → Value
  shown k credentials = str (host.text_of (get_or k null credentials))

  -- `_canned_test_result`
  unfoldable pub canned_test_result : Fields → TestResult
  unfolding get_or
  canned_test_result credentials = record {
    success = true;
    account_number = shown "account" credentials;
    account_currency = str "USD";
    server = shown "server" credentials;
    balance = float "10000.0";
    equity = float "10000.0";
    error_code = none;
    error_message = none;
  }

  -- `_canned_account_info`
  unfoldable pub canned_account_info : Fields → AccountInfo
  unfolding get_or
  canned_account_info credentials = record {
    account_number = shown "account" credentials;
    currency = str "USD";
    balance = float "10000.0";
    equity = float "10000.0";
    margin = float "0.0";
    free_margin = float "10000.0";
    margin_level = null;
    server = shown "server" credentials;
  }

  -- `_canned_tick`
  unfoldable pub canned_tick : String → Tick
  canned_tick symbol = record {
    symbol = str symbol;
    bid = float "1.0";
    ask = float "1.0001";
    timestamp_ms = host.now_ms;
  }
