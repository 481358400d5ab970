-- ===== src/Brokers/Runner.antt =====
-- workers/mt5_runner.py: the process that answers one request for MetaTrader 5. Its state is what it
-- has written to the standard output, one JSON object for each `_emit`, and whether the terminal is
-- connected. The package MetaTrader5 and Python's numbers are parameters.
pub mod Operations
pub mod Script
pub mod Protocol
pub mod Outcome
use aurum_platform.Common.{
  ℕ, String, Bool, true, false, not, Option, none, some, List, [], ◌∷◌, ◌++◌, ◌<>◌, str_eq, ◌||◌,
  ◌&&◌, if◌then◌else◌, any,
}
use aurum_platform.Json.{
  Value, null, bool, int, str, arr, obj, Fields, end, field, Items, nil, cons, get, as_text, truthy,
}
use aurum_platform.Errors.{Exn, other, system_exit}
use aurum_platform.Exec.{Exec, Result, ok, err, pure, raise, modify, handle, recover, ◌>>=◌, ◌>>◌}
use aurum_platform.Services.{Attempt, returned, raised}
use aurum_platform.Brokers.{Call, call}
use aurum_platform.Brokers.Dicts.{lift, as_dict, item, get_or, or_value}

pub record Process : Type 0 where
  pub stdout : List Fields
  pub connected : Bool

abbrev pub Run : Type 0 → Type 0
Run A = Exec Process A

-- What `account_info()`, `positions_get()` and `symbol_info_tick()` give.
pub record Info : Type 0 where
  pub login : Value
  pub currency : Value
  pub server : Value
  pub balance : Value
  pub equity : Value
  pub margin : Value
  pub margin_free : Value
  pub margin_level : Value

pub record OpenPosition : Type 0 where
  pub ticket : Value
  pub symbol : Value
  pub kind : Value
  pub volume : Value
  pub price_open : Value
  pub price_current : Value
  pub profit : Value
  pub time : Value
  pub sl : Value
  pub tp : Value

pub record Quote : Type 0 where
  pub bid : Value
  pub ask : Value
  pub time : Value
  pub time_msc : Option Value

-- The package: what its functions return, and Python's `int`, `float`, `str`, `v > 0`, `v == 0` and
-- `int(v * 1000)`. `shutdown` is how `shutdown()` ends. `last_error` is none where the package has no such function, and `describe` is
-- the text of an exception with its class.
pub record Terminal : Type 0 where
  pub installed : Bool
  pub initialize : Value → Value → Value → Attempt Bool
  pub shutdown : Attempt (Unit {0})
  pub last_error : Option (Value × Value)
  pub account_info : Option Info
  pub positions : Option (List OpenPosition)
  pub quote : Value → Option Quote
  pub to_int : Value → Attempt Value
  pub to_float : Value → Attempt Value
  pub to_ms : Value → Attempt Value
  pub text_of : Value → String
  pub is_positive : Value → Bool
  pub is_zero : Value → Bool
  pub describe : Exn → String

-- `_emit`
unfoldable pub emit : Fields → Run (Unit {0})
unfolding modify
emit payload = modify (λ p. record p { stdout = p.stdout ++ payload ∷ [] })

abbrev pub failure_payload : String → String → Fields
failure_payload code message =
    field "ok" (bool false)
      (field "error_code" (str code) (field "error_message" (str message) end))

-- `_fail`
unfoldable pub fail : {A : Type 0} → String → String → Run A
unfolding emit raise ◌>>=◌
fail code message = do emit (failure_payload code message); raise system_exit

-- `_read_request`, on what `json.loads` makes of the standard input
unfoldable pub read_request : Attempt Value → Run Fields
unfolding fail pure
read_request (raised text) = fail "BAD_REQUEST" ("invalid JSON on stdin: " <> text)
read_request (returned (obj o)) = pure o
read_request (returned v) = fail "BAD_REQUEST" "stdin payload must be an object"

unfoldable pub set_connected : Bool → Run (Unit {0})
unfolding modify
set_connected b = modify (λ p. record p { connected = b })

-- `except (KeyError, TypeError, ValueError)`
unfoldable pub bad_account : Exn → Run Value
unfolding fail raise any
bad_account (other class) =
    if any (str_eq class) ("KeyError" ∷ "TypeError" ∷ "ValueError" ∷ [])
    then fail "VALIDATION" "account must be an integer"
    else raise (other class)
bad_account e = raise e

-- `x if x is not None` or else a failure
unfoldable pub some_or_fail : {A : Type 0} → Option A → String → String → Run A
unfolding fail pure
some_or_fail none code message = fail code message
some_or_fail (some a) code message = pure a

unfoldable pub check_or_fail : Bool → String → String → Run (Unit {0})
unfolding fail pure
check_or_fail true code message = pure tt
check_or_fail false code message = fail code message

module _ (mt5 : Terminal) where
  abbrev pub float_of : Value → Run Value
  float_of v = call (lift (mt5.to_float v))

  -- `err`, with its two parts
  unfoldable pub error_parts : Value × Value
  error_parts = elim mt5.last_error [ none ↦ (null, str "unknown") | some parts ↦ parts ]

  -- The end of `_connect`, where `initialize` has not succeeded.
  unfoldable pub not_initialized : Run (Unit {0})
  unfolding fail error_parts
  not_initialized =
      let (code, message) = error_parts in
      let text = mt5.text_of code in
      if str_eq text "-6" || str_eq text "10004"
      then fail "AUTH_FAILED" (mt5.text_of message)
      else fail "CONNECTION_ERROR" (mt5.text_of message)

  -- `int(credentials["account"])`
  unfoldable pub login_of : Value → Run Value
  unfolding call ◌>>=◌
  login_of credentials = do
    account ← call (item "account" credentials)
    call (lift (mt5.to_int account))

  -- `_connect`
  unfoldable pub connect : Value → Run (Unit {0})
  unfolding handle login_of bad_account check_or_fail set_connected not_initialized get_or truthy
      call ◌>>=◌
  connect credentials = do
    login ← handle (login_of credentials) bad_account
    fields ← call (as_dict credentials)
    let password = get_or "password" null fields
    let server = get_or "server" null fields
    check_or_fail (truthy password && truthy server) "VALIDATION" "missing password or server"
    initialized ← call (lift (mt5.initialize login password server))
    if initialized then set_connected true else not_initialized
