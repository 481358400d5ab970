-- ===== src/Brokers/Access.antt =====
-- Who may do what to a broker account: the guards of api/broker.py.
use aurum_platform.Common.{
  ℕ, ◌≡◌, ◌⊎◌, ◌≢◌, Bool, true, false, Option, none, some, arith, find, if◌then◌else◌, Option-cases,
  inl, inr, subst, refl,
}
use aurum_platform.Errors.{app, not_found, forbidden, request_validation}
use aurum_platform.Exec.{ok, err}
use aurum_platform.Models.{World, User, Role, BrokerAccount, Request, Draws}
use aurum_platform.Services.{Services}
use aurum_platform.Crypto.{Sealing}
use aurum_platform.Brokers.{Registry}
use aurum_platform.Brokers.Schema.{types_match}
use aurum_platform.Brokers.Store.{has_id}
use aurum_platform.Brokers.Meta.{audit_row}
use aurum_platform.Brokers.Routes.{
  is_writer, require_writer, load_owned_or_404, set_active, deactivate_own, reactivate_own,
  delete_own, test_own, list_own, connect_own, read_own, test_stored_own,
}
use aurum_platform.Brokers.Routes.Entry.{
  BrokerRoute, to_test, to_connect, to_list, to_read, to_test_stored, to_deactivate, to_reactivate,
  to_delete, serve_user,
}
use native.Mathlib.Decide.{ℕ_discrete}

-- The account that a route names.
abbrev pub named_account : BrokerRoute → Option ℕ
named_account (to_read i) = some i
named_account (to_test_stored i) = some i
named_account (to_deactivate i) = some i
named_account (to_reactivate i) = some i
named_account (to_delete i) = some i
named_account _ = none

-- A route that only reads.
abbrev pub only_reads : BrokerRoute → Bool
only_reads to_list = true
only_reads (to_read i) = true
only_reads _ = false

-- The check of the body that comes before the handler.
abbrev body_fits : BrokerRoute → Bool
body_fits (to_test broker_type credentials) = types_match broker_type credentials
body_fits (to_connect broker_type account_label credentials) = types_match broker_type credentials
body_fits _ = true

module _ {C : Type 0} (i : ℕ) (user : User) (w : World C) where
  -- No account has the identifier, or the one that has it is another user's.
  unfoldable pub NotOwned : Type 0
  NotOwned =
      (find (has_id i) w.broker_accounts ≡ none)
      ⊎ ((row : BrokerAccount) × (find (has_id i) w.broker_accounts ≡ some row)
          × (row.user_id ≢ user.id))

  pub not_owned_load :
      NotOwned → load_owned_or_404 i user.id w ≡ (err (app not_found "broker_account not found"), w)
  unfolding load_owned_or_404 NotOwned
  not_owned_load (inl e) = simp e
  not_owned_load (inr (row, e, other)) = simp e (ground arith)

  pub owned_load :
      (row : BrokerAccount)
      → find (has_id i) w.broker_accounts ≡ some row
      → row.user_id ≡ user.id
      → load_owned_or_404 i user.id w ≡ (ok row, w)
  unfolding load_owned_or_404
  owned_load row e own = simp e (ground arith)

  -- Who owns the account, or the proof that the user does not.
  pub owned-cases :
      NotOwned
      ⊎ ((row : BrokerAccount) × (find (has_id i) w.broker_accounts ≡ some row)
          × (row.user_id ≡ user.id))
  unfolding NotOwned
  owned-cases = elim (Option-cases (find (has_id i) w.broker_accounts)) [
    | inl e ↦ inl (inl e)
    | inr (row, e) ↦ elim (ℕ_discrete row.user_id user.id) [
      | yes own ↦ inr (row, e, own)
      | no other ↦ inl (inr (row, e, other))
    ]
  ]

found_none :
    {C : Type 0} (j i : ℕ) (user : User) (w : World C)
    → some j ≡ some i
    → NotOwned i user w
    → load_owned_or_404 j user.id w ≡ (err (app not_found "broker_account not found"), w)
found_none j i user w named lacks =
    not_owned_load j user w (subst (λ k. NotOwned k user w) (ground (arith, named)) lacks)

module _ {C : Type 0} (sv : Services C) (registry : Registry) (sl : Sealing) (r : Request)
    (d : Draws) (user : User) (w : World C) where
  -- Each route that names an account answers "not found" to a user who may write and does not own
  -- the account, whether it exists or not, and changes nothing, not even the audit log.
  pub stranger_refused :
      (route : BrokerRoute) (i : ℕ)
      → is_writer user ≡ true
      → named_account route ≡ some i
      → NotOwned i user w
      → serve_user sv registry sl r d route user w
        ≡ (err (app not_found "broker_account not found"), w)
  unfolding serve_user read_own test_stored_own deactivate_own reactivate_own set_active delete_own
      require_writer
  stranger_refused (to_read j) i writer named lacks = simp (found_none j i user w named lacks)
  stranger_refused (to_test_stored j) i writer named lacks =
      simp (writer, found_none j i user w named lacks)
  stranger_refused (to_deactivate j) i writer named lacks =
      simp (writer, found_none j i user w named lacks)
  stranger_refused (to_reactivate j) i writer named lacks =
      simp (writer, found_none j i user w named lacks)
  stranger_refused (to_delete j) i writer named lacks =
      simp (writer, found_none j i user w named lacks)
  stranger_refused _ i writer named lacks = ground arith

  -- The role VIEWER gets from the two routes that read what any other role gets. On every other route
  -- it is refused, by the check of the body where the two broker types differ and with 403 where they
  -- do not, and the state is left alone.
  pub viewer_only_reads :
      (route : BrokerRoute) (role : Role)
      → is_writer user ≡ false
      → serve_user sv registry sl r d route user w ≡ (
          if only_reads route
          then serve_user sv registry sl r d route (record user { role = role }) w
          else if body_fits route
          then (err (app forbidden "VIEWER role cannot manage broker accounts"), w)
          else (err request_validation, w))
  unfolding serve_user test_own connect_own test_stored_own deactivate_own reactivate_own set_active
      delete_own require_writer list_own audit_row read_own
  viewer_only_reads to_list role nowrite = refl
  viewer_only_reads (to_read j) role nowrite = refl
  viewer_only_reads (to_test broker_type credentials) role nowrite = ground (arith, nowrite)
  viewer_only_reads (to_connect broker_type account_label credentials) role nowrite =
      ground (arith, nowrite)
  viewer_only_reads (to_test_stored j) role nowrite = simp nowrite
  viewer_only_reads (to_deactivate j) role nowrite = simp nowrite
  viewer_only_reads (to_reactivate j) role nowrite = simp nowrite
  viewer_only_reads (to_delete j) role nowrite = simp nowrite
