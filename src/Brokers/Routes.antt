-- ===== src/Brokers/Routes.antt =====
-- api/broker.py: the handlers, for the current user. `BrokerTestResponse` has the fields of the
-- result of the test, and `LiveAccountInfo` those of the account information.
pub mod Entry
use aurum_platform.Common.{
  ℕ, String, Bool, true, false, not, Option, none, some, List, [], ◌∷◌, ◌<>◌, str_eq, any, length,
  map, or_text, discard, if◌then◌else◌, ◌==◌,
}
use aurum_platform.Json.{Value, null, bool, int, str, Fields, end, field, of_text}
use aurum_platform.Errors.{
  Exn, app, forbidden, not_found, broker_test_failed, broker, BrokerError, base, auth_failed,
  unknown_account, connection, invalid, ownership, broker_code,
}
use aurum_platform.Exec.{Exec, pure, raise, gets, require, handle, ◌>>=◌, ◌>>◌}
use aurum_platform.Models.{
  World, User, Role, owner, member, viewer, BrokerAccount, AuditRow, Request, Draws,
}
use aurum_platform.Services.{Services}
use aurum_platform.Session.{modify_db}
use aurum_platform.Audit.{write_audit}
use aurum_platform.Deps.{client_ip}
use aurum_platform.Crypto.{Sealing}
use aurum_platform.Brokers.{TestResult, AccountInfo, Registry, call, get_adapter}
use aurum_platform.Brokers.Meta.{audit_meta_safe, audit_row, outcome, refusal_meta}
use aurum_platform.Brokers.Schema.{
  Credentials, creds_dict, AccountResponse, account_response, AccountDetail,
}
use aurum_platform.Brokers.Store.{
  has_id, type_text, remove_key, get_account, update_account, accounts_of, load_credentials,
  create_broker_account, verify_stored_credentials,
}

-- `user.role != UserRole.VIEWER`
unfoldable pub is_writer : User → Bool
is_writer u = elim u.role [ owner ↦ true | member ↦ true | viewer ↦ false ]

-- `row.is_active = …` and `row.deactivated_at = …`
unfoldable pub activated : Bool → Option ℕ → BrokerAccount → BrokerAccount
activated is_active deactivated_at row = record row {
  is_active = is_active;
  deactivated_at = deactivated_at;
}

module _ {C : Type 0} where
  -- `_require_writer`
  unfoldable pub require_writer : User → Exec (World C) (Unit {0})
  require_writer user =
      require (is_writer user) (app forbidden "VIEWER role cannot manage broker accounts")

  -- `_load_owned_or_404`
  unfoldable pub owned_or_404 : ℕ → Option BrokerAccount → Exec (World C) BrokerAccount
  unfolding pure raise
  owned_or_404 user_id none = raise (app not_found "broker_account not found")
  owned_or_404 user_id (some row) =
      if row.user_id == user_id then pure row else raise (app not_found "broker_account not found")

  unfoldable pub load_owned_or_404 : ℕ → ℕ → Exec (World C) BrokerAccount
  unfolding owned_or_404 get_account ◌>>=◌
  load_owned_or_404 account_id user_id = do
    row ← gets (get_account account_id)
    owned_or_404 user_id row

  -- `session.delete(row)`, which deletes the health checks of the account too
  unfoldable pub delete_account : ℕ → Exec (World C) (Unit {0})
  unfolding modify_db
  delete_account i = modify_db (λ d. record d {
    broker_accounts = discard (has_id i) d.broker_accounts;
    health_checks = discard (λ h. h.broker_account_id == i) d.health_checks;
  })

  unfoldable pub list_own : Request → User → Exec (World C) (List AccountResponse)
  unfolding ◌>>=◌
  list_own r user = do
    rows ← gets (accounts_of user.id)
    write_audit
        (audit_row r "broker.list" "success" user none (field "count" (int (length rows)) end))
    pure (map account_response rows)

  -- The two `except` clauses of `broker_connect`.
  unfoldable pub connect_refused :
      {A : Type 0} → Request → User → String → String → Exn → Exec (World C) A
  unfolding raise ◌>>=◌
  connect_refused r user broker_type account_label (broker kind message code) = do
    write_audit (
        audit_row r "broker.connect" "failure" user none (
          audit_meta_safe (some broker_type)
            (field "account_label" (str account_label) (refusal_meta kind message code end))))
    raise (app broker_test_failed message)
  connect_refused r user broker_type account_label e = raise e

  -- The `except` clause of `broker_test_stored`.
  unfoldable pub ownership_to_404 : {A : Type 0} → Exn → Exec (World C) A
  unfolding raise
  ownership_to_404 ownership = raise (app not_found "broker_account not found")
  ownership_to_404 e = raise e

  -- The `except` clause of `broker_read`, which keeps the message.
  unfoldable pub live_failed : Exn → Exec (World C) (Option AccountInfo × String × Option String)
  unfolding pure raise
  live_failed (broker kind message code) = pure (none, "failure", some message)
  live_failed e = raise e

  module _ (sv : Services C) where
    abbrev pub resource_of : ℕ → Option String
    resource_of i = some ("broker_account:" <> sv.uuid_text i)

    -- `broker_deactivate` and `broker_reactivate`
    unfoldable pub set_active :
        String → Bool → Option ℕ → Request → ℕ → User → Exec (World C) AccountResponse
    unfolding require_writer load_owned_or_404 update_account activated ◌>>=◌
    set_active action is_active deactivated_at r account_id user = do
      require_writer user
      row ← load_owned_or_404 account_id user.id
      update_account row.id (activated is_active deactivated_at)
      write_audit (
          audit_row r action "success" user (resource_of row.id)
            (audit_meta_safe (some (type_text row.broker_type)) end))
      pure (account_response (activated is_active deactivated_at row))

    unfoldable pub deactivate_own : Request → Draws → ℕ → User → Exec (World C) AccountResponse
    deactivate_own r d account_id user =
        set_active "broker.deactivate" false (some d.now) r account_id user

    unfoldable pub reactivate_own : Request → ℕ → User → Exec (World C) AccountResponse
    reactivate_own r account_id user = set_active "broker.reactivate" true none r account_id user

    unfoldable pub delete_own : Request → ℕ → User → Exec (World C) (Unit {0})
    unfolding require_writer load_owned_or_404 delete_account ◌>>=◌
    delete_own r account_id user = do
      require_writer user
      row ← load_owned_or_404 account_id user.id
      delete_account row.id
      write_audit (
          audit_row r "broker.delete" "success" user (resource_of account_id)
            (audit_meta_safe (some (type_text row.broker_type)) end))

    module _ (registry : Registry) where
      unfoldable pub test_own : Request → String → Credentials → User → Exec (World C) TestResult
      unfolding require_writer ◌>>=◌
      test_own r broker_type credentials user = do
        require_writer user
        adapter ← get_adapter registry broker_type
        result ← call (adapter.test_connection (remove_key "broker_type" (creds_dict credentials)))
        write_audit (
            audit_row r "broker.test" (outcome result) user none (
              audit_meta_safe (some broker_type) (
                field "server" result.server (
                  field "account_number" result.account_number (
                    field "success" (bool result.success)
                      (field "error_code" (of_text result.error_code) end))))))
        pure result

      module _ (sl : Sealing) where
        unfoldable pub connect_own :
            Request → Draws → String → String → Credentials → User → Exec (World C) AccountResponse
        unfolding require_writer handle connect_refused create_broker_account ◌>>=◌
        connect_own r d broker_type account_label credentials user = do
          require_writer user
          (row, test_result) ←
              handle
                (create_broker_account sl registry d user.id broker_type account_label
                  (creds_dict credentials))
                (connect_refused r user broker_type account_label)
          write_audit (
              audit_row r "broker.connect" "success" user (resource_of row.id) (
                audit_meta_safe (some broker_type) (
                  field "account_label" (str account_label)
                    (field "server" row.server (field "account_number" row.account_number end)))))
          pure (account_response row)

        -- The body of the `try` of `broker_read`.
        unfoldable pub fetch_live :
            BrokerAccount → User → Exec (World C) (Option AccountInfo × String × Option String)
        unfolding load_credentials ◌>>=◌
        fetch_live row user = do
          creds ← load_credentials sl row.id user.id
          adapter ← get_adapter registry (type_text row.broker_type)
          info ← call (adapter.get_account_info creds)
          pure (some info, "success", none)

        unfoldable pub live_of :
            BrokerAccount → User → Exec (World C) (Option AccountInfo × String × Option String)
        unfolding fetch_live handle pure
        live_of row user =
            if row.is_active
            then handle (fetch_live row user) live_failed
            else pure (none, "skipped", none)

        unfoldable pub read_own : Request → ℕ → User → Exec (World C) AccountDetail
        unfolding load_owned_or_404 live_of ◌>>=◌
        read_own r account_id user = do
          row ← load_owned_or_404 account_id user.id
          (live, fetch_status, error_msg) ← live_of row user
          write_audit (
              audit_row r "broker.read" "success" user (resource_of row.id) (
                audit_meta_safe (some (type_text row.broker_type))
                  (field "live_fetch" (str fetch_status) end)))
          pure (record {
            account = account_response row;
            last_test_error = or_text error_msg row.last_test_error;
            live_account_info = live;
          })

        unfoldable pub test_stored_own : Request → Draws → ℕ → User → Exec (World C) TestResult
        unfolding require_writer load_owned_or_404 handle verify_stored_credentials ◌>>=◌
        test_stored_own r d account_id user = do
          require_writer user
          row ← load_owned_or_404 account_id user.id
          result ←
              handle (verify_stored_credentials sl registry d account_id user.id) ownership_to_404
          write_audit (
              audit_row r "broker.test_stored" (outcome result) user (resource_of account_id) (
                audit_meta_safe none (
                  field "success" (bool result.success)
                    (field "error_code" (of_text result.error_code) end))))
          pure result
