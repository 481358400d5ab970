-- ===== src/Brokers/Runner/Script.antt =====
-- workers/mt5_runner.py: `main`, and what the script does with its exceptions.
use aurum_platform.Common.{true, false}
use aurum_platform.Json.{Value, null, bool, obj, Fields, end, field, truthy}
use aurum_platform.Errors.{Exn, system_exit}
use aurum_platform.Exec.{raise, handle, ◌>>=◌, ◌>>◌}
use aurum_platform.Services.{Attempt, returned, raised}
use aurum_platform.Brokers.Dicts.{get_or, or_value}
use aurum_platform.Brokers.Runner.{
  Process, Run, Terminal, emit, fail, read_request, check_or_fail, connect,
}
use aurum_platform.Brokers.Runner.Operations.{operate}

module _ (mt5 : Terminal) where
  -- `mt5.shutdown()` under `except Exception: pass`: where it raises, the connection stays as it was.
  unfoldable pub closed : Attempt (Unit {0}) → Process → Process
  closed (returned x) p = record p { connected = false }
  closed (raised text) p = p

  -- The `finally` of `main`.
  unfoldable pub shut_down : {A : Type 0} → Run A → Run A
  unfolding closed
  shut_down m p = let (result, after) = m p in (result, closed mt5.shutdown after)

  -- The `try` of `main`.
  unfoldable pub answer : Fields → Run (Unit {0})
  unfolding connect operate emit or_value get_or truthy ◌>>=◌
  answer request = do
    connect mt5 (or_value (get_or "credentials" null request) (obj end))
    result ←
        operate mt5 (get_or "operation" null request)
          (or_value (get_or "args" null request) (obj end))
    emit (field "ok" (bool true) (field "data" (obj result) end))

  unfoldable pub main : Attempt Value → Run (Unit {0})
  unfolding read_request check_or_fail answer shut_down ◌>>=◌
  main stdin = do
    request ← read_request stdin
    check_or_fail mt5.installed "MT5_UNAVAILABLE"
        "MetaTrader5 package not installed in this runner environment"
    shut_down (answer request)

  -- The last two `except` clauses of the script.
  unfoldable pub unhandled : Exn → Run (Unit {0})
  unfolding fail raise
  unhandled system_exit = raise system_exit
  unhandled e = fail "UNHANDLED" (mt5.describe e)

  -- The whole process.
  unfoldable pub run_script : Attempt Value → Run (Unit {0})
  unfolding main unhandled handle
  run_script stdin = handle (main stdin) unhandled
