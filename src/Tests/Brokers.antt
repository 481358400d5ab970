-- ===== src/Tests/Brokers.antt =====
-- Broker accounts, the adapters and the runner.
use aurum_platform.Common.{
  ◌≡◌, refl, String, true, false, none, some, [], ◌∷◌, inr, arith, is_empty, find,
}
use aurum_platform.Json.{null, int, float, str, obj, Fields, end, field, get, truthy}
use aurum_platform.Errors.{app, forbidden, not_found}
use aurum_platform.Exec.{ok, err}
use aurum_platform.Models.{World, User, viewer, owner, BrokerAccount, BrokerType}
use aurum_platform.Services.{returned}
use aurum_platform.Crypto.{Sealing, IsSealing, encrypt_credentials, decrypt_credentials}
use aurum_platform.Brokers.{TestResult, Registry, get_adapter, call}
use aurum_platform.Brokers.Schema.{for_mt5, creds_dict, for_oanda, types_match}
use aurum_platform.Brokers.Store.{
  verify_stored_credentials, create_broker_account, coerce_creds, new_account, get_account,
  load_credentials, parse_type, type_text,
}
use aurum_platform.Brokers.Accounts.{
  Creation, create_broker_account-Creation, load_credentials-create_broker_account,
}
use aurum_platform.Brokers.Tested.{Recorded, verify_stored_credentials-Recorded}
use aurum_platform.Brokers.Access.{stranger_refused, viewer_only_reads, NotOwned}
use aurum_platform.Brokers.Isolation.Routes.{others_untouched}
use aurum_platform.Brokers.Routes.Entry.{serve_user, to_delete, to_connect, to_test_stored}
use aurum_platform.Brokers.Oanda.Sanitize.{sanitize, contains}
use aurum_platform.Brokers.Oanda.Redaction.{sanitize_redacts}
use aurum_platform.Brokers.Oanda.Wire.{Outside, response, failed, validate}
use aurum_platform.Brokers.Oanda.Connection.{test_connection}
use aurum_platform.Brokers.Oanda.Errors.{Told, test_connection-Told}
use aurum_platform.Brokers.Oanda.Accepted.{Accepted, summary_answer, test_connection-Accepted}
use aurum_platform.Brokers.Oanda.{oanda_adapter}
use aurum_platform.Brokers.Mt5.Bridge.{Host, silent, validate as validate_mt5}
use aurum_platform.Brokers.Mt5.{mt5_adapter}
use aurum_platform.Brokers.Runner.{Terminal, Info}
use aurum_platform.Brokers.Mt5.Wire.{
  fresh, ended_of, Runs, LetsIn, report_for, test_connection-run_script,
}
use aurum_platform.Brokers.Mt5.Connection.{test_connection as test_mt5}
use aurum_platform.Brokers.Runner.Script.{run_script}
use aurum_platform.Brokers.Runner.Outcome.{run_script_writes_one, run_script_disconnects}
use aurum_platform.Tests.Cache.{Cache, services, world_with, request, draws, user_one}
use aurum_platform.Brokers.Routes.{is_writer}

abbrev login : Fields
login = creds_dict (for_mt5 (int 5001) "pw" "Demo")

-- A box for the one dict that these tests seal.
abbrev box : Sealing
box = record {
  dumps = λ o. 9;
  loads = λ n. some (obj (coerce_creds login));
  seal = λ p n. p;
  unseal = λ c n. some c;
  size = λ n. 24;
}

box-IsSealing : IsSealing box (coerce_creds login) 6
box-IsSealing = record {
  size-nonce = refl;
  unseal-seal = refl;
  read = coerce_creds login;
  loads-dumps = refl;
  same = λ k. refl;
}

-- A server that accepts every token.
abbrev server : Outside
server = record {
  request = λ url token path params.
      response 200 (some "{}") (some (obj (field "account" (obj (field "id" (str "77") end)) end)));
  text_of = λ v. "t";
  to_float = λ v. returned v;
  is_positive = λ v. true;
  is_nonzero = λ v. true;
  percent = λ a b. a;
  absolute = λ v. v;
  to_ms = λ v. returned v;
  now = null;
}

abbrev host : Host
host = record {
  test_mode = true;
  runner = none;
  spawn = λ path payload. silent;
  text_of = λ v. "5001";
  to_int = λ v. returned v;
  to_float = λ v. returned v;
  from_timestamp = λ v. returned v;
  now_ms = int 0;
}

abbrev registry : Registry
registry = record { mt5 = mt5_adapter host; oanda = oanda_adapter server }

abbrev start : World Cache
start = world_with [] []

create_broker_account-Creation_example : Creation box registry draws 1 "MT5" "main" login start
create_broker_account-Creation_example =
    create_broker_account-Creation box registry draws 1 "MT5" "main" login start

abbrev result : TestResult
result = record {
  success = true;
  account_number = str "5001";
  account_currency = str "USD";
  server = str "5001";
  balance = float "10000.0";
  equity = float "10000.0";
  error_code = none;
  error_message = none;
}

abbrev row : BrokerAccount
row = new_account draws 1 BrokerType.mt5 "main" (9, 6) result

abbrev made : World Cache
made = record start { db = record start.db { broker_accounts = row ∷ [] } }

creation :
    create_broker_account box registry draws 1 "MT5" "main" login start ≡ (ok (row, result), made)
unfolding create_broker_account mt5_adapter new_account get_adapter coerce_creds creds_dict call get
    parse_type encrypt_credentials
creation = refl

load_credentials-create_broker_account_example :
    (read : Fields) × (load_credentials box row.id 1 made ≡ (ok read, made))
    × ((k : String) → get k read ≡ get k (coerce_creds login))
unfolding get_account find
load_credentials-create_broker_account_example =
    load_credentials-create_broker_account box registry draws 1 "MT5" "main" login start made row
      result refl box-IsSealing creation

-- Another user, and one who may only read.
abbrev stranger : User
stranger = record user_one { id = 2 }

abbrev reader : User
reader = record user_one { role = viewer }

others_untouched_example :
    get_account 11
      (serve_user services registry box (request "") draws (to_delete 11) stranger made).1
    ≡ some row
unfolding get_account new_account find
others_untouched_example =
    others_untouched services registry box (request "") draws stranger made (to_delete 11) 11 row
      refl (λ e. ground (arith, e))

lacks : NotOwned 11 stranger made
unfolding NotOwned new_account find
lacks = inr (row, refl, λ e. ground (arith, e))

stranger_refused_example :
    serve_user services registry box (request "") draws (to_test_stored 11) stranger made
    ≡ (err (app not_found "broker_account not found"), made)
unfolding is_writer
stranger_refused_example =
    stranger_refused services registry box (request "") draws stranger made (to_test_stored 11) 11
      refl refl lacks

viewer_only_reads_example :
    serve_user services registry box
      (request "")
      draws
      (to_connect "MT5" "main" (for_mt5 (int 5001) "pw" "Demo"))
      reader
      made
    ≡ (err (app forbidden "VIEWER role cannot manage broker accounts"), made)
unfolding is_writer types_match
viewer_only_reads_example =
    viewer_only_reads services registry box (request "") draws reader made
      (to_connect "MT5" "main" (for_mt5 (int 5001) "pw" "Demo")) owner refl

verify_stored_credentials-Recorded_example :
    Recorded 11 1 result made (verify_stored_credentials box registry draws 11 1 made).1
unfolding verify_stored_credentials find new_account decrypt_credentials get_adapter type_text call
    mt5_adapter get coerce_creds creds_dict
verify_stored_credentials-Recorded_example =
    verify_stored_credentials-Recorded box registry draws made 11 1 result refl

sanitize_redacts_example :
    contains "0123456789-ab"
      (sanitize (some "bad token 0123456789-ab, not 01234567") "0123456789-ab")
    ≡ false
unfolding is_empty
sanitize_redacts_example =
    sanitize_redacts (some "bad token 0123456789-ab, not 01234567") "0123456789-ab" refl refl

abbrev oanda_login : Fields
oanda_login = coerce_creds (creds_dict (for_oanda "77" "0123456789-ab" "practice"))

-- A server that cannot be reached.
abbrev offline : Outside
offline = record server { request = λ url token path query. failed "ConnectError" }

test_connection-Told_example : Told offline oanda_login (test_connection offline oanda_login tt).0
test_connection-Told_example = test_connection-Told offline oanda_login

abbrev accepted : TestResult
accepted = record {
  success = true;
  account_number = str "77";
  account_currency = null;
  server = str "api-fxpractice.oanda.com";
  balance = null;
  equity = null;
  error_code = none;
  error_message = none;
}

test_connection-Accepted_example :
    (found : String × String × String) × ((validate server oanda_login tt).0 ≡ ok found)
    × Accepted (summary_answer server found)
unfolding test_connection coerce_creds creds_dict get
test_connection-Accepted_example = test_connection-Accepted server oanda_login accepted refl refl

-- A terminal that refuses the login.
abbrev terminal : Terminal
terminal = record {
  installed = true;
  initialize = λ account password server. returned false;
  shutdown = returned tt;
  last_error = some (int 6, str "login failed");
  account_info = none;
  positions = none;
  quote = λ symbol. none;
  to_int = λ v. returned v;
  to_float = λ v. returned v;
  to_ms = λ v. returned v;
  text_of = λ v. "-6";
  is_positive = λ v. true;
  is_zero = λ v. true;
  describe = λ e. "error";
}

run_script_writes_one_example :
    (payload : Fields) × ((run_script terminal
        (returned (obj (field "credentials" (obj login) end)))
        fresh).1.stdout
      ≡ payload ∷ [])
run_script_writes_one_example =
    run_script_writes_one terminal (returned (obj (field "credentials" (obj login) end))) fresh

run_script_disconnects_example :
    (run_script terminal
      (returned (obj (field "operation" (str "get_tick") end)))
      fresh).1.connected
    ≡ false
run_script_disconnects_example =
    run_script_disconnects terminal refl (returned (obj (field "operation" (str "get_tick") end)))
      fresh refl

-- A terminal that lets the login in, and a host that runs the script with it.
abbrev account_info : Info
account_info = record {
  login = int 5001;
  currency = str "EUR";
  server = str "Demo";
  balance = float "12.5";
  equity = float "12.5";
  margin = float "0.0";
  margin_free = float "12.5";
  margin_level = float "0.0";
}

abbrev open_terminal : Terminal
open_terminal = record terminal {
  initialize = λ account password server. returned true;
  account_info = some account_info;
  text_of = λ v. "5001";
}

abbrev live_host : Host
live_host = record host {
  test_mode = false;
  runner = some "mt5_runner.py";
  spawn = λ path payload. ended_of (run_script open_terminal (returned (obj payload)) fresh).1;
}

live_host-Runs : Runs live_host open_terminal
unfolding is_empty
live_host-Runs = record {
  live = refl;
  path = "mt5_runner.py";
  configured = refl;
  named = refl;
  spawned = λ payload. refl;
}

open_terminal-LetsIn : LetsIn open_terminal (coerce_creds login)
unfolding coerce_creds creds_dict get truthy
open_terminal-LetsIn = record {
  here = refl;
  account = int 5001;
  password = str "pw";
  server = str "Demo";
  login = int 5001;
  has_account = refl;
  has_password = refl;
  has_server = refl;
  is_integer = refl;
  given_password = refl;
  given_server = refl;
  initialized = refl;
  info = account_info;
  has_info = refl;
  balance = float "12.5";
  equity = float "12.5";
  balance_of = refl;
  equity_of = refl;
}

test_connection-run_script_example :
    (test_mt5 live_host (coerce_creds login) tt).0
    ≡ ok (report_for open_terminal account_info (coerce_creds login) (float "12.5") (float "12.5"))
unfolding coerce_creds creds_dict get validate_mt5 open_terminal-LetsIn
test_connection-run_script_example =
    test_connection-run_script live_host open_terminal (coerce_creds login) live_host-Runs
      open_terminal-LetsIn refl
