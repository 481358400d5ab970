-- ===== src/Models.antt =====
-- The rows of the database, db/models.py, and the state that the handlers share. A table is the
-- list of its rows, oldest first; a query is a function of the rows, as its SQL says. An identifier
-- (UUID) and a byte string are only compared and handed on, so each is a number. A time is a
-- number of microseconds. Columns that the database fills in and no handler reads are left out:
-- `updated_at`, and the `id` and `ts` of the logs.
pub mod Tables
use aurum_platform.Common.{ℕ, String, Bool, Option, none, List, []}
use aurum_platform.Json.{Value, Fields}

-- `UserRole`
pub data Role : Type 0 where
  owner member viewer : Role

pub record User : Type 0 where
  pub id : ℕ
  pub email : String
  pub display_name : String
  pub role : Role
  pub is_active : Bool

pub record Passkey : Type 0 where
  pub id : ℕ
  pub user_id : ℕ
  pub credential_id : ℕ
  pub public_key : ℕ
  pub sign_count : ℕ
  pub transports : Option Value
  pub nickname : Option String
  pub created_at : ℕ
  pub last_used_at : Option ℕ

pub record RefreshToken : Type 0 where
  pub id : ℕ
  pub user_id : ℕ
  pub token_hash : ℕ
  pub expires_at : ℕ
  pub revoked_at : Option ℕ
  pub last_used_at : Option ℕ
  pub ip_address : Option String
  pub user_agent : Option String

-- `AuditLog`
pub record AuditRow : Type 0 where
  pub action : String
  pub status : String
  pub user_id : Option ℕ
  pub resource : Option String
  pub ip_address : Option String
  pub user_agent : Option String
  pub request_id : Option ℕ
  pub metadata : Option Fields

pub record ControlAction : Type 0 where
  pub user_id : Option ℕ
  pub action : String
  pub request_id : ℕ
  pub metadata : Option Fields

-- `BrokerType`
pub data BrokerType : Type 0 where
  mt5 oanda : BrokerType

-- Three columns hold what the adapter gave, which for a broker that keeps to its interface is a text
-- or `None`; that the database refuses any other value is no part of the model.
pub record BrokerAccount : Type 0 where
  pub id : ℕ
  pub user_id : ℕ
  pub broker_type : BrokerType
  pub account_label : String
  pub encrypted_credentials : ℕ
  pub credential_nonce : ℕ
  pub is_active : Bool
  pub created_at : ℕ
  pub last_tested_at : Option ℕ
  pub last_test_status : Option String
  pub last_test_error : Option String
  pub account_currency : Value
  pub server : Value
  pub account_number : Value
  pub deactivated_at : Option ℕ

pub record BrokerHealthCheck : Type 0 where
  pub broker_account_id : ℕ
  pub status : String
  pub latency_ms : Option ℕ
  pub error_code : Option String

pub record Db : Type 0 where
  pub users : List User
  pub passkeys : List Passkey
  pub refresh_tokens : List RefreshToken
  pub broker_accounts : List BrokerAccount
  pub health_checks : List BrokerHealthCheck
  pub audit_log : List AuditRow
  pub control_actions : List ControlAction

-- What `response.set_cookie` and `response.delete_cookie` have done to the refresh cookie.
pub data Cookie : Type 0 where
  untouched cleared : Cookie
  set_to : String → ℕ → Cookie

-- A flag file holds a whole JSON body, or a part of one.
pub data Content : Type 0 where
  whole : Fields → Content
  torn : Content

-- The state behind the handlers, with a cache of type `C`: the session's view of the database, what
-- is committed, the cache, the control directory, and the process-wide set `_AUDIT_SEEN`.
pub record World (C : Type 0) : Type 0 where
  pub db : Db
  pub open db use *
  pub committed : Db
  pub cache : C
  pub control_dir : List (String × Content)
  pub audit_seen : List (ℕ × String)
  pub cookie : Cookie

-- The parts of an HTTP request that the handlers read.
pub record Request : Type 0 where
  pub forwarded_for : Option String
  pub client_host : Option String
  pub user_agent : Option String
  pub authorization : Option String
  pub refresh_cookie : Option String
  pub request_id : Option ℕ

-- What the clock and the random generators give while one request is handled: one entry for each
-- call in the code.
pub record Draws : Type 0 where
  pub now : ℕ
  pub access_now : ℕ
  pub refresh_now : ℕ
  pub cache_now : ℕ
  pub row_id : ℕ
  pub raw_refresh : String
  pub challenge_id : String
  pub challenge : ℕ
  pub jti : String
  pub tmp_suffix : String
  pub fallback_request_id : ℕ
  pub nonce : ℕ
  pub latency_ms : ℕ

abbrev pub empty_db : Db
empty_db = record {
  users = [];
  passkeys = [];
  refresh_tokens = [];
  broker_accounts = [];
  health_checks = [];
  audit_log = [];
  control_actions = [];
}
