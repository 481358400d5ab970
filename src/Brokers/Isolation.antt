-- ===== src/Brokers/Isolation.antt =====
-- That a handler of api/broker.py keeps the accounts of other users than one, as a relation between
-- the states before and after.
pub mod Routes
use aurum_platform.Common.{
  ℕ, ◌≡◌, refl, sym, ◌∙◌, ap, ◌≢◌, String, Bool, true, false, Option, none, some, [], ◌∷◌, arith,
  ◌==◌, find, if◌then◌else◌, Bool-cases, inl, inr, subst, eq_of_==, Option-cases,
}
use aurum_platform.Errors.{Exn, broker}
use aurum_platform.Exec.{Exec, ◌>>=◌}
use aurum_platform.Exec.Respects.{IsPreorder, Respects, Same-preorder, respects_rules}
use aurum_platform.Exec.Rules.{Leads, Leads-always, Leads-read, Leads-then, Leads-handle}
use aurum_platform.Models.{World, User, BrokerAccount, BrokerHealthCheck, AuditRow, Request, Draws}
use aurum_platform.Models.Tables.{find-append, find-update, find-discard_off, find_passes}
use aurum_platform.Services.{Services}
use aurum_platform.Audit.{write_audit}
use aurum_platform.Crypto.{Sealing}
use aurum_platform.Brokers.{Registry, TestResult, Fields}
use aurum_platform.Brokers.Reads.{broker_reads}
use aurum_platform.Brokers.Access.{owned-cases, owned_load, not_owned_load}
use aurum_platform.Brokers.Store.{
  has_id, get_account, add_account, add_health_check, update_account, load_owned_row,
  create_broker_account, verify_row, verify_stored_credentials, mark_tested,
}
use aurum_platform.Brokers.Routes.{
  load_owned_or_404, delete_account, connect_refused, set_active, deactivate_own, reactivate_own,
  delete_own, test_own, connect_own, list_own, read_own, test_stored_own, activated,
}
use aurum_platform.Brokers.Routes.Entry.{
  BrokerRoute, to_test, to_connect, to_list, to_read, to_test_stored, to_deactivate, to_reactivate,
  to_delete, serve_user,
}

-- Every account of another user than this one is there afterwards, with all its columns.
pub record KeepsOthers {C : Type 0} (user_id : ℕ) (s t : World C) : Type 0 where
  pub kept :
      (j : ℕ) (row : BrokerAccount)
      → get_account j s ≡ some row
      → row.user_id ≢ user_id
      → get_account j t ≡ some row

module _ {C : Type 0} (user_id : ℕ) where
  pub KeepsOthers-same :
      (s t : World C) → t.broker_accounts ≡ s.broker_accounts → KeepsOthers user_id s t
  unfolding get_account
  KeepsOthers-same s t e = record { kept = λ j row h other. ap (λ x. find (has_id j) x) e ∙ h }

  pub KeepsOthers-preorder : IsPreorder (KeepsOthers {C = C} user_id)
  KeepsOthers-preorder = record {
    rfl = λ s. KeepsOthers-same s s refl;
    trans =
        λ s t u p q. record { kept = λ j row h other. q.kept j row (p.kept j row h other) other };
  }

  pub write_audit-KeepsOthers :
      (row : AuditRow) → Respects (KeepsOthers user_id) (write_audit {C = C} row)
  unfolding write_audit
  write_audit-KeepsOthers row = record { at = λ s. KeepsOthers-same s _ refl }

  pub add_health_check-KeepsOthers :
      (row : BrokerHealthCheck) → Respects (KeepsOthers user_id) (add_health_check {C = C} row)
  unfolding add_health_check
  add_health_check-KeepsOthers row = record { at = λ s. KeepsOthers-same s _ refl }

  pub add_account-KeepsOthers :
      (row : BrokerAccount) → Respects (KeepsOthers user_id) (add_account {C = C} row)
  unfolding add_account get_account
  add_account-KeepsOthers row = record {
    at = λ s. record {
      kept = λ j other h differs. find-append (has_id j) s.broker_accounts (row ∷ []) other h;
    };
  }

  pub connect_refused-KeepsOthers :
      {A : Type 0} (r : Request) (user : User) (broker_type account_label : String) (e : Exn)
      → Respects
          (KeepsOthers user_id)
          (connect_refused {C = C} {A = A} r user broker_type account_label e)
  unfolding connect_refused
  connect_refused-KeepsOthers r user broker_type account_label (broker kind message code) =
      search (KeepsOthers-preorder, respects_rules, write_audit-KeepsOthers)
  connect_refused-KeepsOthers r user broker_type account_label _ = record {
    at = λ s. KeepsOthers-same s s refl;
  }

  -- A row of another user has another identifier than a row of this one.
  other_id :
      (w : World C) (i j : ℕ) (own row : BrokerAccount)
      → get_account i w ≡ some own
      → own.user_id ≡ user_id
      → get_account j w ≡ some row
      → row.user_id ≢ user_id
      → i ≢ j
  other_id w i j own row e mine h other same = other cc

pub ruleset keeps_rules = (
  KeepsOthers-preorder, broker_reads, write_audit-KeepsOthers, add_health_check-KeepsOthers,
  add_account-KeepsOthers, connect_refused-KeepsOthers,
)

-- Changes to a row that the user owns.
module _ {C : Type 0} (user_id i : ℕ) (w : World C) (own : BrokerAccount)
    (e : get_account i w ≡ some own) (mine : own.user_id ≡ user_id) where
  pub update-KeepsOthers :
      (f : BrokerAccount → BrokerAccount)
      → ((x : BrokerAccount) → (f x).id ≡ x.id)
      → KeepsOthers user_id w (update_account i f w).1
  unfolding update_account get_account
  update-KeepsOthers f keep = record {
    kept = λ j row h other.
        find-update (has_id j) (has_id i) f w.broker_accounts (same_test j) row h
        ∙ ap (λ b. some (if b then f row else row)) (off j row h other);
  }
    where
      same_test :
          (j : ℕ) (x : BrokerAccount) → has_id j (if has_id i x then f x else x) ≡ has_id j x
      same_test j x = ground (arith, keep x)

      off :
          (j : ℕ) (row : BrokerAccount)
          → get_account j w ≡ some row
          → row.user_id ≢ user_id
          → has_id i row ≡ false
      off j row h other =
          let same = find_passes (has_id j) w.broker_accounts row h in
          ground (arith, same, other_id user_id w i j own row e mine h other)

  pub delete-KeepsOthers : KeepsOthers user_id w (delete_account i w).1
  unfolding delete_account get_account
  delete-KeepsOthers = record {
    kept = λ j row h other.
        find-discard_off (has_id j) (has_id i) w.broker_accounts (differs j row h other) ∙ h;
  }
    where
      differs :
          (j : ℕ) (row : BrokerAccount)
          → get_account j w ≡ some row
          → row.user_id ≢ user_id
          → (x : BrokerAccount) → has_id j x ≡ true
          → has_id i x ≡ false
      differs j row h other x hit = ground (arith, other_id user_id w i j own row e mine h other)
