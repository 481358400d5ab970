-- ===== src/Brokers/Schema.antt =====
-- schemas/broker.py: the bodies of the broker requests and of their answers. That a body has these
-- fields, with values of these kinds and lengths, is up to pydantic.
use aurum_platform.Common.{ℕ, String, Bool, Option, str_eq}
use aurum_platform.Json.{Value, str, Fields, end, field}
use aurum_platform.Models.{BrokerAccount}
use aurum_platform.Brokers.{AccountInfo}
use aurum_platform.Brokers.Store.{type_text}

-- `CredentialsUnion`: `BrokerCredentialsMT5` with the fields `account`, a JSON integer, `password`
-- and `server`, and `BrokerCredentialsOANDA` with `account_id`, `api_token` and `environment`. The
-- two secrets stand for what `get_secret_value` gives.
pub data Credentials : Type 0 where
  for_mt5 : Value → String → String → Credentials
  for_oanda : String → String → String → Credentials

unfoldable pub credentials_type : Credentials → String
credentials_type (for_mt5 account password server) = "MT5"
credentials_type (for_oanda account_id api_token environment) = "OANDA"

-- `_check_match`
unfoldable pub types_match : String → Credentials → Bool
unfolding credentials_type
types_match broker_type credentials = str_eq broker_type (credentials_type credentials)

-- `model_dump()`, with the secrets unwrapped as the handlers do
unfoldable pub creds_dict : Credentials → Fields
unfolding credentials_type
creds_dict (for_mt5 account password server) =
    field "broker_type" (str "MT5")
      (field "account" account (field "password" (str password) (field "server" (str server) end)))
creds_dict (for_oanda account_id api_token environment) = field "broker_type" (str "OANDA") (
    field "account_id" (str account_id)
      (field "api_token" (str api_token) (field "environment" (str environment) end)))

-- `BrokerAccountResponse`
pub record AccountResponse : Type 0 where
  pub id : ℕ
  pub broker_type : String
  pub account_label : String
  pub account_number : Value
  pub server : Value
  pub account_currency : Value
  pub is_active : Bool
  pub last_tested_at : Option ℕ
  pub last_test_status : Option String
  pub created_at : ℕ

-- `_to_account_response`
unfoldable pub account_response : BrokerAccount → AccountResponse
unfolding type_text
account_response row = record {
  id = row.id;
  broker_type = type_text row.broker_type;
  account_label = row.account_label;
  account_number = row.account_number;
  server = row.server;
  account_currency = row.account_currency;
  is_active = row.is_active;
  last_tested_at = row.last_tested_at;
  last_test_status = row.last_test_status;
  created_at = row.created_at;
}

-- `BrokerAccountDetailResponse`
pub record AccountDetail : Type 0 where
  pub account : AccountResponse
  pub last_test_error : Option String
  pub live_account_info : Option AccountInfo
