-- ===== src/Brokers/Oanda/Connection.antt =====
-- brokers/oanda_adapter.py: `test_connection`.
use aurum_platform.Common.{String, true, none, ◌<>◌, text_or}
use aurum_platform.Json.{null, str, obj, Fields, end}
use aurum_platform.Errors.{Exn, broker, invalid, network, broker_code}
use aurum_platform.Exec.{Result, ok, err, pure, raise, handle, attempt, ◌>>=◌}
use aurum_platform.Brokers.{failure, TestResult, Call}
use aurum_platform.Brokers.Oanda.Sanitize.{replace_all}
use aurum_platform.Brokers.Dicts.{as_dict, get_or, or_value}
use aurum_platform.Brokers.Oanda.Wire.{Outside, validate, json_of, float_or_none, server_of}

module _ (out : Outside) where
  -- The body of the second `try` of `test_connection`.
  unfoldable pub summary : String × String × String → Call TestResult
  unfolding json_of as_dict get_or or_value float_or_none replace_all ◌>>=◌
  summary (account_id, token, url) = do
    body ←
        json_of out (out.request url token ("/v3/accounts/" <> account_id <> "/summary") none) token
    answer ← as_dict body
    account ← as_dict (get_or "account" (obj end) answer)
    balance ← float_or_none out "balance" account
    equity ← float_or_none out "NAV" account
    pure (record {
      success = true;
      account_number = or_value (get_or "id" null account) (str account_id);
      account_currency = get_or "currency" null account;
      server = server_of out url;
      balance = balance;
      equity = equity;
      error_code = none;
      error_message = none;
    })

  -- The last two `except` clauses of `test_connection`.
  unfoldable pub test_failed : Exn → Call TestResult
  unfolding failure broker_code text_or pure raise
  test_failed (broker kind message code) = pure (failure (text_or code (broker_code kind)) message)
  test_failed (network class) = pure (failure "connection_error" ("network error: " <> class))
  test_failed e = raise e

  -- The two `try` statements of `test_connection`.
  unfoldable pub test_validated : Result (String × String × String) → Call TestResult
  unfolding summary handle test_failed
  test_validated (ok found) = handle (summary found) test_failed
  test_validated (err (broker invalid message code)) = pure (failure "validation_error" message)
  test_validated (err e) = raise e

  unfoldable pub test_connection : Fields → Call TestResult
  unfolding validate attempt test_validated ◌>>=◌
  test_connection credentials = do
    validated ← attempt (validate out credentials)
    test_validated validated
