-- ===== src/Brokers/Isolation/Routes.antt =====
-- The accounts of one user are out of reach of the others, whatever they ask api/broker.py to do.
use aurum_platform.Common.{
  ℕ, ◌≡◌, refl, sym, ◌≢◌, String, Bool, Option, none, some, arith, ◌==◌, find, Bool-cases, inl, inr,
  subst, eq_of_==, Option-cases,
}
use aurum_platform.Exec.{Exec, ◌>>=◌}
use aurum_platform.Exec.Respects.{Respects, Same-preorder}
use aurum_platform.Exec.Rules.{Leads, Leads-always, Leads-read, Leads-then, Leads-handle}
use aurum_platform.Models.{World, User, BrokerAccount, Request, Draws}
use aurum_platform.Models.Tables.{find_passes}
use aurum_platform.Services.{Services}
use aurum_platform.Crypto.{Sealing}
use aurum_platform.Brokers.{Registry, TestResult, Fields}
use aurum_platform.Brokers.Access.{owned-cases, owned_load, not_owned_load}
use aurum_platform.Brokers.Store.{
  has_id, get_account, update_account, load_owned_row, create_broker_account, verify_row,
  verify_stored_credentials, mark_tested,
}
use aurum_platform.Brokers.Routes.{
  load_owned_or_404, delete_account, set_active, deactivate_own, reactivate_own, delete_own,
  test_own, connect_own, list_own, read_own, test_stored_own, activated,
}
use aurum_platform.Brokers.Routes.Entry.{
  BrokerRoute, to_test, to_connect, to_list, to_read, to_test_stored, to_deactivate, to_reactivate,
  to_delete, serve_user,
}
use aurum_platform.Brokers.Isolation.{
  KeepsOthers, keeps_rules, KeepsOthers-same, KeepsOthers-preorder, update-KeepsOthers,
  delete-KeepsOthers,
}

-- After `_load_owned_or_404` it is enough to look at a row that the user owns.
owned_rule :
    {C A : Type 0} (i : ℕ) (user : User) (w : World C) (f : BrokerAccount → Exec (World C) A)
    → ((row : BrokerAccount)
        → get_account i w ≡ some row
        → row.user_id ≡ user.id
        → Leads (KeepsOthers user.id) w (f row))
    → Leads (KeepsOthers user.id) w (load_owned_or_404 i user.id >>= f)
unfolding get_account ◌>>=◌
owned_rule i user w f next = elim (owned-cases i user w) [
  | inl lacks ↦ record {
    at = rw (not_owned_load i user w lacks) (KeepsOthers-same user.id w w refl);
  }
  | inr (row, e, own) ↦ record { at = rw (owned_load i user w row e own) (next row e own).at }
]

-- The same after `_load_owned_row`.
row_rule :
    {C A : Type 0} (i user_id : ℕ) (w : World C) (f : Option BrokerAccount → Exec (World C) A)
    → ((row : BrokerAccount)
        → get_account i w ≡ some row
        → row.user_id ≡ user_id
        → Leads (KeepsOthers user_id) w (f (some row)))
    → Leads (KeepsOthers user_id) w (f none)
    → Leads (KeepsOthers user_id) w (load_owned_row i user_id >>= f)
unfolding load_owned_row get_account ◌>>=◌
row_rule i user_id w f next missing = elim (Option-cases (get_account i w)) [
  | inl e ↦ record { at = simp e missing.at }
  | inr (row, e) ↦ elim (Bool-cases (row.user_id == user_id)) [
    | inl own ↦ record { at = simp (e, own) (next row e (eq_of_== row.user_id user_id own)).at }
    | inr differs ↦ record { at = simp (e, differs) (KeepsOthers-same user_id w w refl) }
  ]
]

mark_tested-id :
    (now : ℕ) (result : TestResult) (x : BrokerAccount) → (mark_tested now result x).id ≡ x.id
unfolding mark_tested
mark_tested-id now result x = ground arith

-- The row that was found has the identifier by which it was found.
found_id :
    {C : Type 0} (i : ℕ) (w : World C) (row : BrokerAccount)
    → get_account i w ≡ some row
    → get_account row.id w ≡ some row
unfolding get_account
found_id i w row e =
    subst (λ k. find (has_id k) w.broker_accounts ≡ some row)
      (sym (eq_of_== row.id i (find_passes (has_id i) w.broker_accounts row e))) e

ruleset leads_rules = (keeps_rules, Leads-read, Leads-then, Leads-handle, Same-preorder)

module _ {C : Type 0} (sl : Sealing) (registry : Registry) (d : Draws) (user_id i : ℕ)
    (w : World C) where
  mark_tested-KeepsOthers :
      (row : BrokerAccount) (result : TestResult)
      → get_account row.id w ≡ some row
      → row.user_id ≡ user_id
      → Leads (KeepsOthers user_id) w (update_account row.id (mark_tested d.now result))
  mark_tested-KeepsOthers row result e own = record {
    at =
        update-KeepsOthers user_id row.id w row e own (mark_tested d.now result)
          (mark_tested-id d.now result);
  }

  verify_row-KeepsOthers :
      (row : BrokerAccount)
      → get_account row.id w ≡ some row
      → row.user_id ≡ user_id
      → Leads (KeepsOthers user_id) w (verify_row sl registry d row)
  unfolding verify_row
  verify_row-KeepsOthers row e own = search (leads_rules, mark_tested-KeepsOthers) depth 12

  verify_stored-KeepsOthers :
      Leads (KeepsOthers user_id) w (verify_stored_credentials sl registry d i user_id)
  unfolding verify_stored_credentials
  verify_stored-KeepsOthers =
      row_rule i user_id w _
        (λ row e own. record { at = (verify_row-KeepsOthers row (found_id i w row e) own).at })
        (Leads-always (KeepsOthers-preorder user_id) w _ (search keeps_rules))

module _ {C : Type 0} (sv : Services C) (registry : Registry) (sl : Sealing) (r : Request)
    (d : Draws) (user : User) (w : World C) where
  own_update-KeepsOthers :
      (i : ℕ) (row : BrokerAccount) (is_active : Bool) (deactivated_at : Option ℕ)
      → get_account i w ≡ some row
      → row.user_id ≡ user.id
      → Leads (KeepsOthers user.id) w (update_account row.id (activated is_active deactivated_at))
  unfolding activated
  own_update-KeepsOthers i row is_active deactivated_at e own = record {
    at = update-KeepsOthers user.id row.id w row (found_id i w row e) own _ (λ x. refl);
  }

  own_delete-KeepsOthers :
      (i : ℕ) (row : BrokerAccount)
      → get_account i w ≡ some row
      → row.user_id ≡ user.id
      → Leads (KeepsOthers user.id) w (delete_account row.id)
  own_delete-KeepsOthers i row e own = record {
    at = delete-KeepsOthers user.id row.id w row (found_id i w row e) own;
  }

  set_active-KeepsOthers :
      (action : String) (is_active : Bool) (deactivated_at : Option ℕ) (i : ℕ)
      → Leads (KeepsOthers user.id) w (set_active sv action is_active deactivated_at r i user)
  unfolding set_active
  set_active-KeepsOthers action is_active deactivated_at i =
      search (leads_rules, owned_rule, own_update-KeepsOthers) depth 12

  delete_own-KeepsOthers : (i : ℕ) → Leads (KeepsOthers user.id) w (delete_own sv r i user)
  unfolding delete_own
  delete_own-KeepsOthers i = search (leads_rules, owned_rule, own_delete-KeepsOthers) depth 12

  test_stored-KeepsOthers :
      (i : ℕ) → Leads (KeepsOthers user.id) w (test_stored_own sv registry sl r d i user)
  unfolding test_stored_own
  test_stored-KeepsOthers i = search (leads_rules, Leads-always, verify_stored-KeepsOthers) depth 12

  create-KeepsOthers :
      (broker_type account_label : String) (credentials : Fields)
      → Respects (KeepsOthers user.id) (
          create_broker_account {C = C} sl registry d user.id broker_type account_label credentials)
  unfolding create_broker_account
  create-KeepsOthers broker_type account_label credentials = search keeps_rules depth 12

  serve_user-KeepsOthers :
      (route : BrokerRoute)
      → Leads (KeepsOthers user.id) w (serve_user sv registry sl r d route user)
  unfolding serve_user test_own connect_own list_own read_own deactivate_own reactivate_own
  serve_user-KeepsOthers (to_test broker_type credentials) =
      Leads-always (KeepsOthers-preorder user.id) w _ (search keeps_rules depth 12)
  serve_user-KeepsOthers (to_connect broker_type account_label credentials) =
      Leads-always (KeepsOthers-preorder user.id) w _
        (search (keeps_rules, create-KeepsOthers) depth 12)
  serve_user-KeepsOthers to_list =
      Leads-always (KeepsOthers-preorder user.id) w _ (search keeps_rules)
  serve_user-KeepsOthers (to_read i) =
      Leads-always (KeepsOthers-preorder user.id) w _ (search keeps_rules depth 12)
  serve_user-KeepsOthers (to_test_stored i) = search (leads_rules, test_stored-KeepsOthers)
  serve_user-KeepsOthers (to_deactivate i) = search (leads_rules, set_active-KeepsOthers)
  serve_user-KeepsOthers (to_reactivate i) = search (leads_rules, set_active-KeepsOthers)
  serve_user-KeepsOthers (to_delete i) = search (leads_rules, delete_own-KeepsOthers)

  -- Whatever a user asks the broker routes to do and whatever the outcome, the accounts of every
  -- other user are there afterwards as they were.
  pub others_untouched :
      (route : BrokerRoute) (j : ℕ) (row : BrokerAccount)
      → get_account j w ≡ some row
      → row.user_id ≢ user.id
      → get_account j (serve_user sv registry sl r d route user w).1 ≡ some row
  others_untouched route j row h other = (serve_user-KeepsOthers route).at.kept j row h other
