-- ===== src/Auth/Refresh/Appends.antt =====
-- `refresh`, `logout` and `logout_all` of api/auth.py only add to the audit log.
use aurum_platform.Common.{ℕ, Option, none, some}
use aurum_platform.Exec.Respects.{Respects}
use aurum_platform.Models.{User, RefreshToken, Request, Draws}
use aurum_platform.Services.{Services}
use aurum_platform.Audit.AppendOnly.{Appends}
use aurum_platform.Auth.Appends.{basic_rules, issue_tokens-Appends}
use aurum_platform.Auth.Refresh.{
  reuse_detected, refresh_expired, rotate, refresh_user, refresh_row, refresh_found, refresh,
  logout_found, logout, revoke_all, logout_all,
}

module _ {C : Type 0} where
  reuse_detected-Appends :
      (r : Request) (now : ℕ) (row : RefreshToken)
      → Respects Appends (reuse_detected {C = C} r now row)
  unfolding reuse_detected
  reuse_detected-Appends r now row = search basic_rules depth 7

  refresh_expired-Appends :
      (r : Request) (now : ℕ) (row : RefreshToken)
      → Respects Appends (refresh_expired {C = C} r now row)
  unfolding refresh_expired
  refresh_expired-Appends r now row = search basic_rules depth 7

  logout_found-Appends :
      (r : Request) (now : ℕ) (x : Option RefreshToken)
      → Respects Appends (logout_found {C = C} r now x)
  unfolding logout_found
  logout_found-Appends r now none = search basic_rules depth 7
  logout_found-Appends r now (some row) = search basic_rules depth 7

  revoke_all-Appends :
      (r : Request) (d : Draws) (user : User) → Respects Appends (revoke_all {C = C} r d user)
  unfolding revoke_all
  revoke_all-Appends r d user = search basic_rules depth 7

module _ {C : Type 0} (sv : Services C) where
  rotate-Appends :
      (r : Request) (d : Draws) (row : RefreshToken) (user : User)
      → Respects Appends (rotate sv r d row user)
  unfolding rotate
  rotate-Appends r d row user = search (basic_rules, issue_tokens-Appends) depth 7

  refresh_user-Appends :
      (r : Request) (d : Draws) (row : RefreshToken) (user : Option User)
      → Respects Appends (refresh_user sv r d row user)
  unfolding refresh_user
  refresh_user-Appends r d row none = search basic_rules
  refresh_user-Appends r d row (some user) = search (basic_rules, rotate-Appends)

  refresh_row-Appends :
      (r : Request) (d : Draws) (row : RefreshToken) → Respects Appends (refresh_row sv r d row)
  unfolding refresh_row
  refresh_row-Appends r d row =
      search (basic_rules, reuse_detected-Appends, refresh_expired-Appends, refresh_user-Appends)

  refresh_found-Appends :
      (r : Request) (d : Draws) (x : Option RefreshToken)
      → Respects Appends (refresh_found sv r d x)
  unfolding refresh_found
  refresh_found-Appends r d none = search basic_rules
  refresh_found-Appends r d (some row) = refresh_row-Appends r d row

  pub refresh-Appends : (r : Request) (d : Draws) → Respects Appends (refresh sv r d)
  unfolding refresh
  refresh-Appends r d = search (basic_rules, refresh_found-Appends)

  pub logout-Appends : (r : Request) (d : Draws) → Respects Appends (logout sv r d)
  unfolding logout
  logout-Appends r d = search (basic_rules, logout_found-Appends)

  pub logout_all-Appends : (r : Request) (d : Draws) → Respects Appends (logout_all sv r d)
  unfolding logout_all
  logout_all-Appends r d = search (basic_rules, revoke_all-Appends)
