-- ===== src/Me/Appends.antt =====
-- The routes of api/me.py only add to the audit log.
use aurum_platform.Common.{ℕ, String, Option, none, some, refl}
use aurum_platform.Exec.Respects.{Respects}
use aurum_platform.Models.{User, Passkey, Request, Draws}
use aurum_platform.Services.{Services}
use aurum_platform.Audit.AppendOnly.{Appends, Appends-none, modify_db-Appends}
use aurum_platform.Auth.Appends.{basic_rules}
use aurum_platform.Me.{
  read_me, list_own, owned_or_404, load_owned_passkey, set_nickname, delete_passkey, rename_own,
  refuse_last, delete_own, remove_own, get_me, list_passkeys, rename_passkey, remove_passkey,
}

module _ {C : Type 0} where
  read_me-Appends : (r : Request) (user : User) → Respects Appends (read_me {C = C} r user)
  unfolding read_me
  read_me-Appends r user = search basic_rules

  list_own-Appends : (r : Request) (user : User) → Respects Appends (list_own {C = C} r user)
  unfolding list_own
  list_own-Appends r user = search basic_rules

  owned_or_404-Appends :
      (user_id : ℕ) (x : Option Passkey) → Respects Appends (owned_or_404 {C = C} user_id x)
  unfolding owned_or_404
  owned_or_404-Appends user_id none = record { at = λ s. Appends-none s s refl }
  owned_or_404-Appends user_id (some p) = search basic_rules

  load_owned_passkey-Appends :
      (passkey_id user_id : ℕ) → Respects Appends (load_owned_passkey {C = C} passkey_id user_id)
  unfolding load_owned_passkey
  load_owned_passkey-Appends passkey_id user_id = search (basic_rules, owned_or_404-Appends)

  set_nickname-Appends :
      (passkey_id : ℕ) (nickname : String)
      → Respects Appends (set_nickname {C = C} passkey_id nickname)
  unfolding set_nickname
  set_nickname-Appends passkey_id nickname = modify_db-Appends _ (λ d. refl)

  delete_passkey-Appends : (passkey_id : ℕ) → Respects Appends (delete_passkey {C = C} passkey_id)
  unfolding delete_passkey
  delete_passkey-Appends passkey_id = modify_db-Appends _ (λ d. refl)

ruleset me_rules = (
  basic_rules, read_me-Appends, list_own-Appends, load_owned_passkey-Appends, set_nickname-Appends,
  delete_passkey-Appends,
)

module _ {C : Type 0} (sv : Services C) (r : Request) where
  rename_own-Appends :
      (passkey_id : ℕ) (nickname : String) (user : User)
      → Respects Appends (rename_own sv r passkey_id nickname user)
  unfolding rename_own
  rename_own-Appends passkey_id nickname user = search me_rules depth 8

  refuse_last-Appends : (user : User) (p : Passkey) → Respects Appends (refuse_last sv r user p)
  unfolding refuse_last
  refuse_last-Appends user p = search me_rules

  delete_own-Appends :
      (passkey_id : ℕ) (user : User) (p : Passkey)
      → Respects Appends (delete_own sv r passkey_id user p)
  unfolding delete_own
  delete_own-Appends passkey_id user p = search me_rules

  remove_own-Appends :
      (passkey_id : ℕ) (user : User) → Respects Appends (remove_own sv r passkey_id user)
  unfolding remove_own
  remove_own-Appends passkey_id user =
      search (me_rules, refuse_last-Appends, delete_own-Appends) depth 8

  pub get_me-Appends : (d : Draws) → Respects Appends (get_me sv r d)
  unfolding get_me
  get_me-Appends d = search me_rules

  pub list_passkeys-Appends : (d : Draws) → Respects Appends (list_passkeys sv r d)
  unfolding list_passkeys
  list_passkeys-Appends d = search me_rules

  pub rename_passkey-Appends :
      (d : Draws) (passkey_id : ℕ) (nickname : String)
      → Respects Appends (rename_passkey sv r d passkey_id nickname)
  unfolding rename_passkey
  rename_passkey-Appends d passkey_id nickname = search (me_rules, rename_own-Appends)

  pub remove_passkey-Appends :
      (d : Draws) (passkey_id : ℕ) → Respects Appends (remove_passkey sv r d passkey_id)
  unfolding remove_passkey
  remove_passkey-Appends d passkey_id = search (me_rules, remove_own-Appends)
