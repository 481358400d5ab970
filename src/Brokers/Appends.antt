-- ===== src/Brokers/Appends.antt =====
-- The routes of api/broker.py only add to the audit log.
use aurum_platform.Common.{refl, ℕ, String, Bool, Option}
use aurum_platform.Json.{Fields}
use aurum_platform.Errors.{Exn, broker}
use aurum_platform.Exec.Respects.{Respects}
use aurum_platform.Models.{BrokerAccount, BrokerHealthCheck, User, Request, Draws}
use aurum_platform.Services.{Services}
use aurum_platform.Audit.AppendOnly.{Appends, Appends-none, modify_db-Appends}
use aurum_platform.Auth.Appends.{basic_rules}
use aurum_platform.Crypto.{Sealing}
use aurum_platform.Brokers.{Registry}
use aurum_platform.Brokers.Store.{
  add_account, add_health_check, update_account, create_broker_account, verify_row,
  verify_stored_credentials,
}
use aurum_platform.Brokers.Routes.{
  delete_account, list_own, connect_refused, set_active, deactivate_own, reactivate_own, delete_own,
  test_own, connect_own, read_own, test_stored_own,
}
use aurum_platform.Brokers.Routes.Entry.{
  BrokerRoute, to_test, to_connect, to_list, to_read, to_test_stored, to_deactivate, to_reactivate,
  to_delete, serve_user, broker_route,
}
use aurum_platform.Brokers.Reads.{broker_reads}

module _ {C : Type 0} where
  add_account-Appends : (row : BrokerAccount) → Respects Appends (add_account {C = C} row)
  unfolding add_account
  add_account-Appends row = modify_db-Appends _ (λ d. refl)

  add_health_check-Appends :
      (row : BrokerHealthCheck) → Respects Appends (add_health_check {C = C} row)
  unfolding add_health_check
  add_health_check-Appends row = modify_db-Appends _ (λ d. refl)

  update_account-Appends :
      (i : ℕ) (f : BrokerAccount → BrokerAccount) → Respects Appends (update_account {C = C} i f)
  unfolding update_account
  update_account-Appends i f = modify_db-Appends _ (λ d. refl)

  delete_account-Appends : (i : ℕ) → Respects Appends (delete_account {C = C} i)
  unfolding delete_account
  delete_account-Appends i = modify_db-Appends _ (λ d. refl)

  connect_refused-Appends :
      {A : Type 0} (r : Request) (user : User) (broker_type account_label : String) (e : Exn)
      → Respects Appends (connect_refused {C = C} {A = A} r user broker_type account_label e)
  unfolding connect_refused
  connect_refused-Appends r user broker_type account_label (broker kind message code) =
      search basic_rules
  connect_refused-Appends r user broker_type account_label _ = record {
    at = λ s. Appends-none s s refl;
  }

ruleset broker_rules = (
  basic_rules, broker_reads, add_account-Appends, add_health_check-Appends, update_account-Appends,
  delete_account-Appends, connect_refused-Appends,
)

module _ {C : Type 0} (sv : Services C) (registry : Registry) (sl : Sealing) (r : Request)
    (d : Draws) where
  create_broker_account-Appends :
      (user_id : ℕ) (broker_type account_label : String) (credentials : Fields)
      → Respects Appends (
          create_broker_account {C = C} sl registry d user_id broker_type account_label credentials)
  unfolding create_broker_account
  create_broker_account-Appends user_id broker_type account_label credentials =
      search broker_rules depth 12

  verify_row-Appends :
      (row : BrokerAccount) → Respects Appends (verify_row {C = C} sl registry d row)
  unfolding verify_row
  verify_row-Appends row = search broker_rules depth 12

  verify_stored_credentials-Appends :
      (account_id user_id : ℕ)
      → Respects Appends (verify_stored_credentials {C = C} sl registry d account_id user_id)
  unfolding verify_stored_credentials
  verify_stored_credentials-Appends account_id user_id =
      search (broker_rules, verify_row-Appends) depth 8

  set_active-Appends :
      (action : String) (is_active : Bool) (deactivated_at : Option ℕ) (i : ℕ) (user : User)
      → Respects Appends (set_active sv action is_active deactivated_at r i user)
  unfolding set_active
  set_active-Appends action is_active deactivated_at i user = search broker_rules depth 8

  serve_user-Appends :
      (route : BrokerRoute) (user : User)
      → Respects Appends (serve_user sv registry sl r d route user)
  unfolding serve_user test_own connect_own list_own read_own test_stored_own deactivate_own
      reactivate_own delete_own
  serve_user-Appends (to_test broker_type credentials) user = search broker_rules depth 12
  serve_user-Appends (to_connect broker_type account_label credentials) user =
      search (broker_rules, create_broker_account-Appends) depth 12
  serve_user-Appends to_list user = search broker_rules depth 8
  serve_user-Appends (to_read i) user = search broker_rules depth 12
  serve_user-Appends (to_test_stored i) user =
      search (broker_rules, verify_stored_credentials-Appends) depth 12
  serve_user-Appends (to_deactivate i) user = search (broker_rules, set_active-Appends) depth 8
  serve_user-Appends (to_reactivate i) user = search (broker_rules, set_active-Appends) depth 8
  serve_user-Appends (to_delete i) user = search broker_rules depth 12

  pub broker_route-Appends :
      (route : BrokerRoute) → Respects Appends (broker_route sv registry sl r d route)
  unfolding broker_route
  broker_route-Appends route = search (basic_rules, serve_user-Appends)
