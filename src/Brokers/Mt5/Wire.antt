-- ===== src/Brokers/Mt5/Wire.antt =====
-- The wire between brokers/mt5_adapter.py and workers/mt5_runner.py: the adapter over a process that
-- runs the modelled script.
use aurum_platform.Common.{
  ◌≡◌, refl, ◌∙◌, ap, String, true, false, Option, none, some, [], ◌∷◌, is_empty,
}
use aurum_platform.Json.{Value, null, bool, str, obj, Fields, end, field, get, truthy}
use aurum_platform.Exec.{ok, handle}
use aurum_platform.Services.{Attempt, returned, raised}
use aurum_platform.Brokers.{TestResult, call}
use aurum_platform.Brokers.Dicts.{lift, item, as_dict, get_or, or_value}
use aurum_platform.Brokers.Mt5.Bridge.{Host, Ended, silent, wrote, validate, run_subprocess}
use aurum_platform.Brokers.Mt5.Connection.{test_connection, test_runner}
use aurum_platform.Brokers.Runner.{
  Process, Terminal, Info, connect, login_of, bad_account, check_or_fail, set_connected,
}
use aurum_platform.Brokers.Runner.Operations.{operate}
use aurum_platform.Brokers.Runner.Script.{closed, run_script}

abbrev pub fresh : Process
fresh = record { stdout = []; connected = false }

-- What the adapter reads: the objects that the process wrote, where it wrote one.
unfoldable pub ended_of : Process → Ended
ended_of p = elim p.stdout [ [] ↦ silent | ◌∷◌ o rest ↦ wrote (some (obj o)) ]

-- The host runs the script, and hands JSON over as it is.
pub record Runs (host : Host) (mt5 : Terminal) : Type 0 where
  pub live : host.test_mode ≡ false
  pub path : String
  pub configured : host.runner ≡ some path
  pub named : is_empty path ≡ false
  pub spawned :
      (payload : Fields)
      → host.spawn path payload ≡ ended_of (run_script mt5 (returned (obj payload)) fresh).1

-- A terminal that lets these credentials in and has an account.
pub record LetsIn (mt5 : Terminal) (credentials : Fields) : Type 0 where
  pub here : mt5.installed ≡ true
  pub account : Value
  pub password : Value
  pub server : Value
  pub login : Value
  pub has_account : get "account" credentials ≡ some account
  pub has_password : get "password" credentials ≡ some password
  pub has_server : get "server" credentials ≡ some server
  pub is_integer : mt5.to_int account ≡ returned login
  pub given_password : truthy password ≡ true
  pub given_server : truthy server ≡ true
  pub initialized : mt5.initialize login password server ≡ returned true
  pub info : Info
  pub has_info : mt5.account_info ≡ some info
  pub balance : Value
  pub equity : Value
  pub balance_of : mt5.to_float info.balance ≡ returned balance
  pub equity_of : mt5.to_float info.equity ≡ returned equity

abbrev pub request_for : Fields → Fields
request_for credentials =
    field "operation" (str "test_connection")
      (field "credentials" (obj credentials) (field "args" (obj end) end))

-- What the script answers for an account.
abbrev pub data_for : Terminal → Info → Value → Value → Fields
data_for mt5 info balance equity = field "account_number" (str (mt5.text_of info.login)) (
    field "account_currency" info.currency
      (field "server" info.server (field "balance" balance (field "equity" equity end))))

abbrev pub reply_for : Terminal → Info → Value → Value → Fields
reply_for mt5 info balance equity =
    field "ok" (bool true) (field "data" (obj (data_for mt5 info balance equity)) end)

given_dict : (o : Fields) → or_value (obj o) (obj end) ≡ obj o
unfolding or_value
given_dict end = refl
given_dict (field k v r) = refl

abbrev or_null : Option Value → Value
or_null none = null
or_null (some v) = v

module _ (mt5 : Terminal) (credentials : Fields) (l : LetsIn mt5 credentials) where
  login_succeeds :
      (p : Process) → handle (login_of mt5 (obj credentials)) bad_account p ≡ (ok l.login, p)
  unfolding handle login_of call item lift
  login_succeeds p = simp l.has_account (simp l.is_integer refl)

  fields_given :
      (k : String) (v : Value) → get k credentials ≡ some v → get_or k null credentials ≡ v
  unfolding get_or
  fields_given k v h = ap or_null h

  connect_succeeds :
      (p : Process) → connect mt5 (obj credentials) p ≡ (ok tt, record p { connected = true })
  unfolding connect as_dict lift check_or_fail set_connected
  connect_succeeds p = simp (
    login_succeeds p,
    fields_given "password" l.password l.has_password,
    fields_given "server" l.server l.has_server,
    l.given_password,
    l.given_server,
    l.initialized,
  )

  run_script_tests : run_script mt5 (returned (obj (request_for credentials))) fresh ≡ (
    ok tt,
    closed mt5 mt5.shutdown
        (record { stdout = reply_for mt5 l.info l.balance l.equity ∷ []; connected = true }),
  )
  unfolding run_script operate item get lift
  run_script_tests = simp (
    l.here,
    given_dict credentials,
    connect_succeeds fresh,
    l.has_info,
    l.balance_of,
    l.equity_of,
  )

ended_of-closed :
    (mt5 : Terminal) (x : Attempt (Unit {0})) (p : Process) → ended_of (closed mt5 x p) ≡ ended_of p
unfolding closed ended_of
ended_of-closed mt5 (returned u) p = refl
ended_of-closed mt5 (raised text) p = refl

-- What the adapter reports of the account.
abbrev pub report_for : Terminal → Info → Fields → Value → Value → TestResult
report_for mt5 info credentials balance equity = record {
  success = true;
  account_number = str (mt5.text_of info.login);
  account_currency = info.currency;
  server = or_value info.server (get_or "server" null credentials);
  balance = balance;
  equity = equity;
  error_code = none;
  error_message = none;
}

module _ (host : Host) (mt5 : Terminal) (credentials : Fields) (runs : Runs host mt5)
    (l : LetsIn mt5 credentials) where
  spawned_ends :
      host.spawn runs.path (request_for credentials)
      ≡ wrote (some (obj (reply_for mt5 l.info l.balance l.equity)))
  unfolding ended_of
  spawned_ends =
      runs.spawned (request_for credentials)
      ∙ ap (λ x. ended_of x.1) (run_script_tests mt5 credentials l)
      ∙ ended_of-closed mt5 mt5.shutdown _

  run_subprocess_answers :
      (s : Unit {0})
      → run_subprocess host "test_connection" credentials end "30.0" s
        ≡ (ok (obj (data_for mt5 l.info l.balance l.equity)), s)
  unfolding run_subprocess get get_or
  run_subprocess_answers s = simp runs.configured (simp runs.named (simp spawned_ends refl))

  test_runner_reports :
      (s : Unit {0})
      → test_runner host credentials s
        ≡ (ok (report_for mt5 l.info credentials l.balance l.equity), s)
  unfolding test_runner get
  test_runner_reports s = simp (run_subprocess_answers s)

-- From one end to the other: where the adapter is configured to run the script, and the terminal
-- lets the credentials in, `test_connection` of the adapter reports a success, with the number, the
-- currency, the server and the two floats that the terminal has of the account.
pub test_connection-run_script :
    (host : Host) (mt5 : Terminal) (credentials : Fields)
    → Runs host mt5
    → (l : LetsIn mt5 credentials) → (validate host credentials tt).0 ≡ ok tt
    → (test_connection host credentials tt).0
      ≡ ok (report_for mt5 l.info credentials l.balance l.equity)
unfolding test_connection handle
test_connection-run_script host mt5 credentials runs l valid =
    simp valid (simp runs.live (simp (test_runner_reports host mt5 credentials runs l tt) refl))
