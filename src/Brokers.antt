-- ===== src/Brokers.antt =====
-- The brokers: what an adapter promises, brokers/base.py, and how one is found, brokers/factory.py.
-- An adapter keeps no state of its own, so a call of it is a handler on the trivial state.
pub mod Dicts
pub mod Oanda
pub mod Mt5
pub mod Runner
pub mod Store
pub mod Schema
pub mod Meta
pub mod Routes
pub mod Reads
pub mod Appends
pub mod Access
pub mod Accounts
pub mod Tested
pub mod Isolation
use aurum_platform.Common.{false, some, ℕ, String, Bool, Option, List, ◌<>◌, str_eq, if◌then◌else◌}
use aurum_platform.Json.{null, Value, Fields}
use aurum_platform.Errors.{other}
use aurum_platform.Exec.{Exec, pure, raise}

-- `TestConnectionResult`. What an adapter copies from the answer of its broker is any JSON value.
pub record TestResult : Type 0 where
  pub success : Bool
  pub account_number : Value
  pub account_currency : Value
  pub server : Value
  pub balance : Value
  pub equity : Value
  pub error_code : Option String
  pub error_message : Option String

-- `TestConnectionResult` of a failure.
unfoldable pub failure : String → String → TestResult
failure code message = record {
  success = false;
  account_number = null;
  account_currency = null;
  server = null;
  balance = null;
  equity = null;
  error_code = some code;
  error_message = some message;
}

pub record AccountInfo : Type 0 where
  pub account_number : Value
  pub currency : Value
  pub balance : Value
  pub equity : Value
  pub margin : Value
  pub free_margin : Value
  pub margin_level : Value
  pub server : Value

pub record Position : Type 0 where
  pub position_id : Value
  pub symbol : Value
  pub side : Value
  pub volume : Value
  pub open_price : Value
  pub current_price : Value
  pub unrealized_pnl : Value
  pub open_time : Value
  pub sl : Value
  pub tp : Value

pub record Tick : Type 0 where
  pub symbol : Value
  pub bid : Value
  pub ask : Value
  pub timestamp_ms : Value

abbrev pub Call : Type 0 → Type 0
Call A = Exec (Unit {0}) A

-- `BrokerAdapter`
pub record Adapter : Type 0 where
  pub required : List String
  pub test_connection : Fields → Call TestResult
  pub get_account_info : Fields → Call AccountInfo
  pub get_positions : Fields → Call (List Position)
  pub get_tick : Fields → String → Call Tick

-- A call of an adapter from a handler.
unfoldable pub call : {S A : Type 0} → Call A → Exec S A
call m s = ((m tt).0, s)

-- `_REGISTRY`
pub record Registry : Type 0 where
  pub mt5 : Adapter
  pub oanda : Adapter

unfoldable pub get_adapter : {S : Type 0} → Registry → String → Exec S Adapter
unfolding pure raise
get_adapter registry broker_type =
    if str_eq broker_type "MT5"
    then pure registry.mt5
    else if str_eq broker_type "OANDA"
    then pure registry.oanda
    else raise (other "ValueError")
