-- ===== src/Brokers/Store.antt =====
-- brokers/credential_store.py: broker accounts, with their credentials encrypted, and who may read
-- them.
use aurum_platform.Common.{
  ℕ, String, Bool, true, false, Option, none, some, List, [], ◌∷◌, ◌++◌, ◌==◌, leb, str_eq, text_or,
  any, find, select, update, if◌then◌else◌, ◌<>◌,
}
use aurum_platform.Json.{Value, Fields, end, field, has_key, truthy}
use aurum_platform.Errors.{broker, base, invalid, ownership, lookup_error, other}
use aurum_platform.Exec.{Exec, pure, raise, gets, require, or_raise, ◌>>=◌, ◌>>◌}
use aurum_platform.Models.{World, BrokerType, mt5, oanda, BrokerAccount, BrokerHealthCheck, Draws}
use aurum_platform.Session.{modify_db}
use aurum_platform.Crypto.{Sealing, encrypt_credentials, decrypt_credentials}
use aurum_platform.Brokers.{TestResult, Registry, call, get_adapter}

-- `BrokerType.value`, and `BrokerType(text)`
unfoldable pub type_text : BrokerType → String
type_text mt5 = "MT5"
type_text oanda = "OANDA"

unfoldable pub parse_type : String → Option BrokerType
parse_type s = if str_eq s "MT5" then some mt5 else if str_eq s "OANDA" then some oanda else none

-- `del d[k]`, where a missing key is no error
unfoldable pub remove_key : String → Fields → Fields
remove_key k end = end
remove_key k (field j v r) =
    let rest = remove_key k r in if str_eq j k then rest else field j v rest

-- `_coerce_creds_for_storage`, on credentials whose secrets are texts by now, as its callers leave
-- them
unfoldable pub coerce_creds : Fields → Fields
unfolding remove_key
coerce_creds credentials = remove_key "broker_type" credentials

abbrev pub has_id : ℕ → BrokerAccount → Bool
has_id i row = row.id == i

abbrev pub owned_by : ℕ → BrokerAccount → Bool
owned_by user_id row = row.user_id == user_id

-- The row of `_persist`.
unfoldable pub new_account : Draws → ℕ → BrokerType → String → ℕ × ℕ → TestResult → BrokerAccount
new_account d user_id broker_type account_label (encrypted, nonce) test_result = record {
  id = d.row_id;
  user_id = user_id;
  broker_type = broker_type;
  account_label = account_label;
  encrypted_credentials = encrypted;
  credential_nonce = nonce;
  is_active = true;
  created_at = d.now;
  last_tested_at = some d.now;
  last_test_status = some "success";
  last_test_error = none;
  account_currency = test_result.account_currency;
  server = test_result.server;
  account_number = test_result.account_number;
  deactivated_at = none;
}

-- The codes by which a broker says that it refused the credentials.
abbrev pub auth_codes : List String
auth_codes = "401" ∷ "403" ∷ "AUTH_FAILED" ∷ "broker_auth_failed" ∷ []

unfoldable pub is_auth_code : Option String → Bool
unfolding any
is_auth_code none = false
is_auth_code (some code) = any (str_eq code) auth_codes

-- `if new: row.column = new`
unfoldable pub refreshed : Value → Value → Value
unfolding truthy
refreshed new old = if truthy new then new else old

unfoldable pub test_status : TestResult → String
unfolding is_auth_code
test_status result =
    if result.success
    then "success"
    else if is_auth_code result.error_code
    then "auth_failed"
    else "connection_error"

-- What `verify_stored_credentials` writes to the row.
unfoldable pub mark_tested : ℕ → TestResult → BrokerAccount → BrokerAccount
unfolding test_status refreshed
mark_tested now result row =
    if result.success
    then record row {
      last_tested_at = some now;
      last_test_status = some (test_status result);
      last_test_error = none;
      account_currency = refreshed result.account_currency row.account_currency;
      server = refreshed result.server row.server;
      account_number = refreshed result.account_number row.account_number;
    }
    else record row {
      last_tested_at = some now;
      last_test_status = some (test_status result);
      last_test_error = result.error_message;
    }

unfoldable pub health_check : ℕ → TestResult → ℕ → BrokerHealthCheck
unfolding test_status
health_check account_id result latency_ms = record {
  broker_account_id = account_id;
  status = test_status result;
  latency_ms = some latency_ms;
  error_code = if result.success then none else result.error_code;
}

-- `ORDER BY created_at DESC`, with the order of the rows among equal times.
unfoldable pub insert_newest : BrokerAccount → List BrokerAccount → List BrokerAccount
insert_newest a [] = a ∷ []
insert_newest a (b ∷ bs) =
    let rest = insert_newest a bs in if leb b.created_at a.created_at then a ∷ b ∷ bs else b ∷ rest

unfoldable pub newest_first : List BrokerAccount → List BrokerAccount
unfolding insert_newest
newest_first [] = []
newest_first (a ∷ rest) = insert_newest a (newest_first rest)

module _ {C : Type 0} where
  unfoldable pub add_account : BrokerAccount → Exec (World C) (Unit {0})
  unfolding modify_db
  add_account row = modify_db (λ d. record d { broker_accounts = d.broker_accounts ++ row ∷ [] })

  unfoldable pub add_health_check : BrokerHealthCheck → Exec (World C) (Unit {0})
  unfolding modify_db
  add_health_check row = modify_db (λ d. record d { health_checks = d.health_checks ++ row ∷ [] })

  -- The assignments to the columns of a row.
  unfoldable pub update_account : ℕ → (BrokerAccount → BrokerAccount) → Exec (World C) (Unit {0})
  unfolding modify_db
  update_account i f =
      modify_db (λ d. record d { broker_accounts = update (has_id i) f d.broker_accounts })

  -- `session.get(BrokerAccount, id)`
  unfoldable pub get_account : ℕ → World C → Option BrokerAccount
  get_account i w = find (has_id i) w.broker_accounts

  -- `_load_owned_row`
  unfoldable pub owned_row : ℕ → Option BrokerAccount → Exec (World C) (Option BrokerAccount)
  unfolding pure raise
  owned_row user_id none = pure none
  owned_row user_id (some row) = if row.user_id == user_id then pure (some row) else raise ownership

  unfoldable pub load_owned_row : ℕ → ℕ → Exec (World C) (Option BrokerAccount)
  unfolding owned_row get_account ◌>>=◌
  load_owned_row account_id user_id = do row ← gets (get_account account_id); owned_row user_id row

  -- The query of `list_user_accounts`.
  unfoldable pub accounts_of : ℕ → World C → List BrokerAccount
  accounts_of user_id w = newest_first (select (owned_by user_id) w.broker_accounts)

  -- The loop over the required fields.
  unfoldable pub require_fields : List String → Fields → Exec (World C) (Unit {0})
  unfolding ◌>>=◌
  require_fields [] storable = pure tt
  require_fields (name ∷ names) storable = do
    require (has_key name storable) (broker invalid ("missing credential field: " <> name) none)
    require_fields names storable

  module _ (sl : Sealing) where
    unfoldable pub load_credentials : ℕ → ℕ → Exec (World C) Fields
    unfolding load_owned_row ◌>>=◌
    load_credentials account_id user_id = do
      found ← load_owned_row account_id user_id
      row ← or_raise found lookup_error
      decrypt_credentials sl row.encrypted_credentials row.credential_nonce

    module _ (registry : Registry) (d : Draws) where
      unfoldable pub create_broker_account :
          ℕ → String → String → Fields → Exec (World C) (BrokerAccount × TestResult)
      unfolding require_fields add_account ◌>>=◌
      create_broker_account user_id broker_type account_label credentials = do
        adapter ← get_adapter registry broker_type
        let storable = coerce_creds credentials
        require_fields adapter.required storable
        test_result ← call (adapter.test_connection storable)
        require test_result.success (
            broker base (text_or test_result.error_message "broker test failed")
              test_result.error_code)
        kind ← or_raise (parse_type broker_type) (other "ValueError")
        let sealed = encrypt_credentials sl d.nonce storable
        let row = new_account d user_id kind account_label sealed test_result
        add_account row
        pure (row, test_result)

      unfoldable pub verify_row : BrokerAccount → Exec (World C) TestResult
      unfolding update_account add_health_check ◌>>=◌
      verify_row row = do
        creds ← decrypt_credentials sl row.encrypted_credentials row.credential_nonce
        adapter ← get_adapter registry (type_text row.broker_type)
        result ← call (adapter.test_connection creds)
        update_account row.id (mark_tested d.now result)
        add_health_check (health_check row.id result d.latency_ms)
        pure result

      unfoldable pub verify_stored_credentials : ℕ → ℕ → Exec (World C) TestResult
      unfolding load_owned_row verify_row ◌>>=◌
      verify_stored_credentials account_id user_id = do
        found ← load_owned_row account_id user_id
        row ← or_raise found lookup_error
        verify_row row
