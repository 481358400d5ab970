-- ===== src/Brokers/Oanda/Wire.antt =====
-- brokers/oanda_adapter.py: credentials, requests and answers. The server, `json` and Python's floats
-- are parameters.
use aurum_platform.Common.{
  ℕ, String, Bool, Option, none, some, List, [], ◌∷◌, ◌<>◌, ◌==◌, ◌||◌, ◌&&◌, leb, ltb, str_eq,
  if◌then◌else◌,
}
use aurum_platform.Json.{Value, null, int, str, arr, obj, Fields, get}
use aurum_platform.Errors.{
  Exn, broker, base, auth_failed, unknown_account, connection, invalid, network, other,
}
use aurum_platform.Exec.{pure, raise, or_raise, ◌>>=◌, ◌>>◌}
use aurum_platform.Services.{Attempt}
use aurum_platform.Brokers.{Call}
use aurum_platform.Brokers.Dicts.{lift, get_or}
use aurum_platform.Brokers.Oanda.Sanitize.{replace_all, sanitize}

-- What `client.get` gives: a response with its status, its text and its JSON value, where what
-- raises is `none`; or an `httpx.TimeoutException` or `httpx.RequestError`, or another exception,
-- by the name of its class.
pub data Answer : Type 0 where
  response : ℕ → Option String → Option Value → Answer
  failed broke : String → Answer

-- The server behind `client.get(path, params)` on a base URL with a token, and Python's `str` and
-- floats: `float(v)`, `v > 0`, `v != 0`, `a / b * 100.0`, `abs(v)` and `int(float(v) * 1000)`. An
-- exception is the name of its class.
pub record Outside : Type 0 where
  pub request : String → String → String → Option String → Answer
  pub text_of : Value → String
  pub to_float : Value → Attempt Value
  pub is_positive : Value → Bool
  pub is_nonzero : Value → Bool
  pub percent : Value → Value → Value
  pub absolute : Value → Value
  pub to_ms : Value → Attempt Value
  pub now : Value

abbrev pub required_fields : List String
required_fields = "account_id" ∷ "api_token" ∷ "environment" ∷ []

-- `_BASE_URLS`
unfoldable pub base_url_of : String → Option String
base_url_of env =
    if str_eq env "practice"
    then some "https://api-fxpractice.oanda.com"
    else if str_eq env "live"
    then some "https://api-fxtrade.oanda.com"
    else none

abbrev pub bad_environment : Exn
bad_environment = broker invalid "environment must be 'practice' or 'live'" none

-- `_BASE_URLS[env]`. A list or a dict cannot be looked up in a dict.
unfoldable pub base_url : Value → Call String
unfolding base_url_of or_raise raise
base_url (str env) = or_raise (base_url_of env) bad_environment
base_url (arr items) = raise (other "TypeError")
base_url (obj fields) = raise (other "TypeError")
base_url _ = raise bad_environment

module _ (out : Outside) where
  -- `_validate`: the account, the token and the base URL
  unfoldable pub validate : Fields → Call (String × String × String)
  unfolding base_url ◌>>=◌
  validate credentials = do
    account_id ←
        or_raise (get "account_id" credentials)
          (broker invalid "missing credential field: account_id" none)
    token ←
        or_raise (get "api_token" credentials)
          (broker invalid "missing credential field: api_token" none)
    env ←
        or_raise (get "environment" credentials)
          (broker invalid "missing credential field: environment" none)
    url ← base_url env
    pure (out.text_of account_id, out.text_of token, url)

  -- `_raise_for_status`
  unfoldable pub raise_for_status : ℕ → Option String → String → Call (Unit {0})
  unfolding pure raise
  raise_for_status status text token =
      let code = out.text_of (int status) in
      if leb 200 status && ltb status 300
      then pure tt
      else if status == 401 || status == 403
      then raise (broker auth_failed "OANDA rejected credentials" (some code))
      else if status == 404
      then raise (broker unknown_account "OANDA account not found" (some "404"))
      else if leb 500 status && ltb status 600
      then raise (broker connection ("OANDA server error (" <> code <> ")") (some code))
      else raise
          (broker base ("OANDA returned " <> code <> ": " <> sanitize text token) (some code))

  -- `client.get`, `_raise_for_status` and `resp.json()`
  unfoldable pub json_of : Answer → String → Call Value
  unfolding raise_for_status ◌>>=◌
  json_of (response status text body) token = do
    raise_for_status status text token
    or_raise body (other "JSONDecodeError")
  json_of (failed class) token = raise (network class)
  json_of (broke class) token = raise (other class)

  -- `float(data[k]) if k in data else None`
  unfoldable pub float_or_none : String → Fields → Call Value
  unfolding lift pure
  float_or_none k account = elim (get k account) [
    | none ↦ pure null
    | some v ↦ lift (out.to_float v)
  ]

  -- `float(data.get(k, 0))`
  unfoldable pub float_or_zero : String → Fields → Call Value
  unfolding lift get_or
  float_or_zero k account = lift (out.to_float (get_or k (int 0) account))

  abbrev pub server_of : String → Value
  server_of url = str (replace_all "https://" "" url)
