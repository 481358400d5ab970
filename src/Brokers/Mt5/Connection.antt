-- ===== src/Brokers/Mt5/Connection.antt =====
-- brokers/mt5_adapter.py: `test_connection`.
use aurum_platform.Common.{true, none, text_or, if◌then◌else◌}
use aurum_platform.Json.{null, Fields, end}
use aurum_platform.Errors.{Exn, broker, invalid, broker_code}
use aurum_platform.Exec.{Result, ok, err, pure, raise, handle, attempt, ◌>>=◌}
use aurum_platform.Brokers.{failure, TestResult, Call}
use aurum_platform.Brokers.Dicts.{as_dict, get_or, or_value}
use aurum_platform.Brokers.Mt5.Bridge.{Host, validate, run_subprocess, canned_test_result}

module _ (host : Host) where
  -- The body of the second `try` of `test_connection`.
  unfoldable pub test_runner : Fields → Call TestResult
  unfolding run_subprocess as_dict get_or or_value pure ◌>>=◌
  test_runner credentials = do
    answer ← run_subprocess host "test_connection" credentials end "30.0"
    found ← as_dict answer
    pure (record {
      success = true;
      account_number = get_or "account_number" null found;
      account_currency = get_or "account_currency" null found;
      server = or_value (get_or "server" null found) (get_or "server" null credentials);
      balance = get_or "balance" null found;
      equity = get_or "equity" null found;
      error_code = none;
      error_message = none;
    })

  unfoldable pub test_failed : Exn → Call TestResult
  unfolding failure broker_code text_or pure raise
  test_failed (broker kind message code) = pure (failure (text_or code (broker_code kind)) message)
  test_failed e = raise e

  unfoldable pub test_validated : Fields → Result (Unit {0}) → Call TestResult
  unfolding canned_test_result test_runner handle test_failed
  test_validated credentials (ok u) =
      if host.test_mode
      then pure (canned_test_result host credentials)
      else handle (test_runner credentials) test_failed
  test_validated credentials (err (broker invalid message code)) =
      pure (failure "validation_error" message)
  test_validated credentials (err e) = raise e

  unfoldable pub test_connection : Fields → Call TestResult
  unfolding validate attempt test_validated ◌>>=◌
  test_connection credentials = do
    validated ← attempt (validate host credentials)
    test_validated credentials validated
