-- ===== src/Brokers/Tested.antt =====
-- What a test of stored credentials, `verify_stored_credentials` of brokers/credential_store.py,
-- leaves in the two tables.
use aurum_platform.Common.{
  ℕ, ◌≡◌, refl, sym, ◌∙◌, ap, true, some, [], ◌∷◌, ◌++◌, arith, ◌==◌, if◌then◌else◌, Bool-cases,
  Option-cases, inl, inr, subst, eq_of_==, ==-refl,
}
use aurum_platform.Exec.{Result, ok, Raised-not_ok}
use aurum_platform.Exec.Respects.{Same-preorder}
use aurum_platform.Exec.Rules.{Same-cases}
use aurum_platform.Models.{World, BrokerAccount, BrokerHealthCheck, Draws}
use aurum_platform.Models.Tables.{find-update, find_passes}
use aurum_platform.Crypto.{Sealing, decrypt_credentials}
use aurum_platform.Brokers.{TestResult, Registry, call, get_adapter}
use aurum_platform.Brokers.Reads.{get_adapter-Respects, decrypt_credentials-Respects, call-Respects}
use aurum_platform.Brokers.Store.{
  has_id, get_account, mark_tested, health_check, type_text, test_status, verify_row,
  verify_stored_credentials, update_account, add_health_check,
}

-- The account of the user has the outcome, and a new health check has the same status.
pub record Recorded {C : Type 0} (i user_id : ℕ) (result : TestResult) (w after : World C)
    : Type 0 where
  pub row : BrokerAccount
  pub tested_row : BrokerAccount
  pub check : BrokerHealthCheck
  pub there : get_account i w ≡ some row
  pub own : row.user_id ≡ user_id
  pub stored : get_account i after ≡ some tested_row
  pub appended : after.health_checks ≡ w.health_checks ++ check ∷ []
  pub of_account : check.broker_account_id ≡ i
  pub status : tested_row.last_test_status ≡ some check.status
  pub agrees : check.status ≡ test_status result
  pub same_credentials : tested_row.encrypted_credentials ≡ row.encrypted_credentials
  pub same_nonce : tested_row.credential_nonce ≡ row.credential_nonce

same_value : (a b : TestResult) → Result.ok a ≡ ok b → a ≡ b
same_value a b h = cc

module _ (now : ℕ) (result : TestResult) (row : BrokerAccount) where
  mark_tested-id : (mark_tested now result row).id ≡ row.id
  unfolding mark_tested
  mark_tested-id = ground arith

  mark_tested_status : (mark_tested now result row).last_test_status ≡ some (test_status result)
  unfolding mark_tested
  mark_tested_status = ground arith

  mark_tested_credentials :
      (mark_tested now result row).encrypted_credentials ≡ row.encrypted_credentials
  unfolding mark_tested
  mark_tested_credentials = ground arith

  mark_tested_nonce : (mark_tested now result row).credential_nonce ≡ row.credential_nonce
  unfolding mark_tested
  mark_tested_nonce = ground arith

module _ {C : Type 0} (sl : Sealing) (registry : Registry) (d : Draws) (w : World C) where
  -- The state after a test that has an outcome.
  abbrev recorded : BrokerAccount → TestResult → World C
  recorded row result =
      (add_health_check (health_check row.id result d.latency_ms)
        (update_account row.id (mark_tested d.now result) w).1).1

  verified_row :
      (row : BrokerAccount) (result : TestResult)
      → (verify_row sl registry d row w).0 ≡ ok result
      → (verify_row sl registry d row w).1 ≡ recorded row result
  unfolding verify_row
  verified_row row result h =
      elim (Same-cases (decrypt_credentials sl row.encrypted_credentials row.credential_nonce) w (
        decrypt_credentials-Respects Same-preorder sl row.encrypted_credentials
          row.credential_nonce)) [
            | inr (e, failed) ↦ absurd (Raised-not_ok _ result tt (simp failed at h))
            | inl (creds, opened) ↦
                elim (Same-cases (get_adapter registry (type_text row.broker_type)) w
                  (get_adapter-Respects Same-preorder registry (type_text row.broker_type))) [
                    | inr (e, failed) ↦
                        absurd (Raised-not_ok _ result tt (simp (opened, failed) at h))
                    | inl (adapter, known) ↦
                        elim (Same-cases (call (adapter.test_connection creds)) w
                          (call-Respects Same-preorder (adapter.test_connection creds))) [
                            | inr (e, failed) ↦
                                absurd
                                  (Raised-not_ok _ result tt (simp (opened, known, failed) at h))
                            | inl (found, answered) ↦
                                let found_is =
                                  same_value found result (simp (opened, known, answered) at h) in
                                simp (opened, known, answered) (ap (recorded row) found_is)
                          ]
                  ]
          ]

  recorded-Recorded :
      (i user_id : ℕ) (row : BrokerAccount) (result : TestResult)
      → get_account i w ≡ some row
      → row.user_id ≡ user_id
      → Recorded i user_id result w (recorded row result)
  unfolding get_account update_account add_health_check health_check
  recorded-Recorded i user_id row result there own =
      let i_is = eq_of_== row.id i (find_passes (has_id i) w.broker_accounts row there) in
      record {
        row = row;
        tested_row = mark_tested d.now result row;
        check = health_check row.id result d.latency_ms;
        there = there;
        own = own;
        stored =
            find-update (has_id i) (has_id row.id) (mark_tested d.now result) w.broker_accounts
              (λ x. ground (arith, mark_tested-id d.now result x)) row there
            ∙ ap (λ b. some (if b then mark_tested d.now result row else row)) (==-refl row.id);
        appended = refl;
        of_account = i_is;
        status = mark_tested_status d.now result row;
        agrees = refl;
        same_credentials = mark_tested_credentials d.now result row;
        same_nonce = mark_tested_nonce d.now result row;
      }

  verify_found :
      (i user_id : ℕ) (row : BrokerAccount)
      → get_account i w ≡ some row
      → (row.user_id == user_id) ≡ true
      → verify_stored_credentials sl registry d i user_id w ≡ verify_row sl registry d row w
  unfolding verify_stored_credentials get_account
  verify_found i user_id row e own = simp (e, own)

  -- Where the test of stored credentials returns, the account that it tested is the user's, the
  -- account and a new health check have the status of the outcome, and the stored credentials are as
  -- they were.
  pub verify_stored_credentials-Recorded :
      (i user_id : ℕ) (result : TestResult)
      → (verify_stored_credentials sl registry d i user_id w).0 ≡ ok result
      → Recorded i user_id result w (verify_stored_credentials sl registry d i user_id w).1
  unfolding verify_stored_credentials get_account
  verify_stored_credentials-Recorded i user_id result h = elim (Option-cases (get_account i w)) [
    | inl e ↦ absurd (Raised-not_ok _ result tt (simp e at h))
    | inr (row, e) ↦ elim (Bool-cases (row.user_id == user_id)) [
      | inr differs ↦ absurd (Raised-not_ok _ result tt (simp (e, differs) at h))
      | inl own ↦
          let same = verify_found i user_id row e own in
          rw same (
            subst (λ v. Recorded i user_id result w v)
              (sym (verified_row row result (sym (ap (λ x. x.0) same) ∙ h)))
              (recorded-Recorded i user_id row result e (eq_of_== row.user_id user_id own)))
    ]
  ]
