-- ===== src/Brokers/Accounts.antt =====
-- What `create_broker_account` of brokers/credential_store.py leaves in the table, and who can read
-- the credentials back.
use aurum_platform.Common.{
  ℕ, ◌≡◌, refl, String, true, none, some, eq_of_==, ==-refl, ==-of_eq, ◌==◌, Bool-cases,
  Option-cases, inl, inr, sym, ap, ◌∙◌, text_or,
}
use aurum_platform.Json.{Fields, get}
use aurum_platform.Errors.{Exn, broker, base, other}
use aurum_platform.Exec.{ok, err, Raised-not_ok}
use aurum_platform.Exec.Respects.{Same-preorder}
use aurum_platform.Exec.Rules.{Same-cases}
use aurum_platform.Models.{World, BrokerType, BrokerAccount, Draws}
use aurum_platform.Models.Tables.{find-append_new}
use aurum_platform.Crypto.{
  Sealing, IsSealing, encrypt_credentials, decrypt_credentials, decrypt-encrypt,
}
use aurum_platform.Brokers.{TestResult, Adapter, Registry, call, get_adapter}
use aurum_platform.Brokers.Reads.{get_adapter-Respects, require_fields-Respects, call-Respects}
use aurum_platform.Brokers.Store.{
  has_id, get_account, add_account, load_credentials, create_broker_account, coerce_creds,
  new_account, parse_type, require_fields,
}

-- The outcome of `create_broker_account` in a state: an error, and nothing written; or an account
-- that comes last in the table, owned by the user, active, with the credentials sealed as they were
-- tested, after an adapter of the broker type has found that they work.
pub data Creation {C : Type 0} (sl : Sealing) (registry : Registry) (d : Draws) (user_id : ℕ)
    (broker_type account_label : String) (credentials : Fields) (w : World C) : Type 0 where
  refused :
      (e : Exn)
      → create_broker_account sl registry d user_id broker_type account_label credentials w
        ≡ (err e, w)
      → Creation sl registry d user_id broker_type account_label credentials w
  created :
      (adapter : Adapter) (kind : BrokerType) (result : TestResult) (row : BrokerAccount)
      → get_adapter registry broker_type w ≡ (ok adapter, w)
      → call (adapter.test_connection (coerce_creds credentials)) w ≡ (ok result, w)
      → result.success ≡ true
      → parse_type broker_type ≡ some kind
      → row
        ≡ new_account d user_id kind account_label
            (encrypt_credentials sl d.nonce (coerce_creds credentials))
            result
      → create_broker_account sl registry d user_id broker_type account_label credentials w
        ≡ (ok (row, result), (add_account row w).1)
      → Creation sl registry d user_id broker_type account_label credentials w

module _ {C : Type 0} (sl : Sealing) (registry : Registry) (d : Draws) (user_id : ℕ)
    (broker_type account_label : String) (credentials : Fields) (w : World C) where
  tested_Creation :
      (adapter : Adapter) (result : TestResult)
      → get_adapter registry broker_type w ≡ (ok adapter, w)
      → require_fields adapter.required (coerce_creds credentials) w ≡ (ok tt, w)
      → call (adapter.test_connection (coerce_creds credentials)) w ≡ (ok result, w)
      → Creation sl registry d user_id broker_type account_label credentials w
  unfolding create_broker_account
  tested_Creation adapter result known complete answered = elim (Bool-cases result.success) [
    | inr bad ↦
        refused (broker base (text_or result.error_message "broker test failed") result.error_code)
          (simp (known, complete, answered, bad))
    | inl good ↦ elim (Option-cases (parse_type broker_type)) [
      | inl no_type ↦ refused (other "ValueError") (simp (known, complete, answered, good, no_type))
      | inr (kind, typed) ↦
          created adapter kind result _ known answered good typed refl
            (simp (known, complete, answered, good, typed))
    ]
  ]

  found_Creation :
      (adapter : Adapter)
      → get_adapter registry broker_type w ≡ (ok adapter, w)
      → Creation sl registry d user_id broker_type account_label credentials w
  unfolding create_broker_account
  found_Creation adapter known =
      elim (Same-cases (require_fields adapter.required (coerce_creds credentials)) w
        (require_fields-Respects Same-preorder adapter.required (coerce_creds credentials))) [
          | inr (e, missing) ↦ refused e (simp (known, missing))
          | inl (u, complete) ↦
              elim (Same-cases (call (adapter.test_connection (coerce_creds credentials))) w (
                call-Respects Same-preorder (adapter.test_connection (coerce_creds credentials)))) [
                  | inr (e, failed) ↦ refused e (simp (known, complete, failed))
                  | inl (result, answered) ↦ tested_Creation adapter result known complete answered
                ]
        ]

  -- `create_broker_account` writes all or nothing: see `Creation`.
  pub create_broker_account-Creation :
      Creation sl registry d user_id broker_type account_label credentials w
  unfolding create_broker_account
  create_broker_account-Creation =
      elim (Same-cases (get_adapter registry broker_type) w
        (get_adapter-Respects Same-preorder registry broker_type)) [
          | inr (e, unknown) ↦ refused e (simp unknown)
          | inl (adapter, known) ↦ found_Creation adapter known
        ]

module _ {C : Type 0} (sl : Sealing) (i user_id : ℕ) (w : World C) where
  load_credentials_found :
      (row : BrokerAccount)
      → get_account i w ≡ some row
      → row.user_id ≡ user_id
      → load_credentials sl i user_id w
        ≡ decrypt_credentials sl row.encrypted_credentials row.credential_nonce w
  unfolding load_credentials get_account
  load_credentials_found row e own = simp (e, ==-of_eq row.user_id user_id own)

  -- Whoever loads the credentials of an account owns it.
  pub load_credentials_owner :
      (creds : Fields)
      → (load_credentials sl i user_id w).0 ≡ ok creds
      → (row : BrokerAccount) × (get_account i w ≡ some row) × (row.user_id ≡ user_id)
  unfolding load_credentials get_account
  load_credentials_owner creds h = elim (Option-cases (get_account i w)) [
    | inl e ↦ absurd (Raised-not_ok _ creds tt (simp e at h))
    | inr (row, e) ↦ elim (Bool-cases (row.user_id == user_id)) [
      | inl own ↦ (row, e, eq_of_== row.user_id user_id own)
      | inr differs ↦ absurd (Raised-not_ok _ creds tt (simp (e, differs) at h))
    ]
  ]

-- What `_persist` has added is found under its identifier.
get_account-add_account :
    {C : Type 0} (row : BrokerAccount) (w : World C)
    → get_account row.id w ≡ none
    → get_account row.id (add_account row w).1 ≡ some row
unfolding get_account add_account
get_account-add_account row w fresh =
    find-append_new (has_id row.id) w.broker_accounts row fresh (==-refl row.id)

-- The credentials of a new account, as its owner loads them.
loaded_new :
    {C : Type 0} (sl : Sealing) (d : Draws) (user_id : ℕ) (account_label : String)
    (storable : Fields) (w : World C) (kind : BrokerType) (result : TestResult)
    → get_account d.row_id w ≡ none
    → IsSealing sl storable d.nonce
    → let row =
        new_account d user_id kind account_label (encrypt_credentials sl d.nonce storable) result in
      let after = (add_account row w).1 in
      (read : Fields) × (load_credentials sl row.id user_id after ≡ (ok read, after))
      × ((k : String) → get k read ≡ get k storable)
unfolding new_account
loaded_new sl d user_id account_label storable w kind result fresh laws =
    let row =
      new_account d user_id kind account_label (encrypt_credentials sl d.nonce storable) result in
    let after = (add_account row w).1 in
    let (read, opened, same) = decrypt-encrypt sl storable d.nonce after laws in
    (
      read,
      load_credentials_found sl d.row_id user_id after row (get_account-add_account row w fresh)
            refl
          ∙ opened,
      same,
    )

-- After `create_broker_account` under a fresh identifier, its owner loads credentials that have the
-- value of the dict at every key, without its broker type.
pub load_credentials-create_broker_account :
    {C : Type 0} (sl : Sealing) (registry : Registry) (d : Draws) (user_id : ℕ)
    (broker_type account_label : String) (credentials : Fields) (w after : World C)
    (row : BrokerAccount) (result : TestResult)
    → get_account d.row_id w ≡ none
    → IsSealing sl (coerce_creds credentials) d.nonce
    → create_broker_account sl registry d user_id broker_type account_label credentials w
      ≡ (ok (row, result), after)
    → (read : Fields) × (load_credentials sl row.id user_id after ≡ (ok read, after))
      × ((k : String) → get k read ≡ get k (coerce_creds credentials))
load_credentials-create_broker_account sl registry d user_id broker_type account_label credentials w
      after row result fresh laws h =
    let sealed = encrypt_credentials sl d.nonce (coerce_creds credentials) in
    elim (create_broker_account-Creation sl registry d user_id broker_type account_label credentials
      w) [
        | refused e failed ↦
            absurd (Raised-not_ok _ (row, result) tt (ap (λ x. x.0) (sym failed ∙ h)))
        | created adapter kind result' row' known answered good typed is_new success ↦
            let same : (ok (row', result'), (add_account row' w).1) ≡ (ok (row, result), after) =
              sym success ∙ h in
            let row_is : row ≡ new_account d user_id kind account_label sealed result' = cc in
            let after_is : after
                ≡ (add_account (new_account d user_id kind account_label sealed result') w).1 =
              cc in
            rw (row_is, after_is)
              (loaded_new sl d user_id account_label (coerce_creds credentials) w kind result' fresh
                laws)
      ]
