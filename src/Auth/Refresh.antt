-- ===== src/Auth/Refresh.antt =====
-- `refresh`, `logout` and `logout_all` of api/auth.py.
pub mod Accepts
pub mod Rotation
pub mod Revocation
pub mod Logout
pub mod Appends
use aurum_platform.Common.{
  ℕ, String, Bool, true, false, Option, none, some, ◌==◌, ◌&&◌, leb, is_none, is_some, is_blank,
  find, update, count, if◌then◌else◌,
}
use aurum_platform.Json.{end, field, bool, int}
use aurum_platform.Errors.{app, auth}
use aurum_platform.Exec.{Exec, pure, raise, gets, ◌>>=◌, ◌>>◌}
use aurum_platform.Models.{World, User, RefreshToken, Request, Draws}
use aurum_platform.Services.{Services}
use aurum_platform.Session.{modify_db}
use aurum_platform.Audit.{write_audit}
use aurum_platform.Security.{hash_refresh_token}
use aurum_platform.Deps.{get_user, get_current_user}
use aurum_platform.Auth.Tokens.{
  Tokens, audit_row, audit_failure, clear_refresh_cookie, issue_tokens,
}

-- `WHERE user_id = … AND revoked_at IS NULL`
unfoldable pub is_live_of : ℕ → RefreshToken → Bool
is_live_of user_id t = t.user_id == user_id && is_none t.revoked_at

abbrev pub revoke_at : ℕ → RefreshToken → RefreshToken
revoke_at now t = record t { revoked_at = some now }

-- The old token of a rotation.
abbrev pub retire_at : ℕ → RefreshToken → RefreshToken
retire_at now t = record t { revoked_at = some now; last_used_at = some now }

abbrev pub has_hash : ℕ → RefreshToken → Bool
has_hash digest t = t.token_hash == digest

abbrev pub has_id : ℕ → RefreshToken → Bool
has_id i t = t.id == i

-- The text of a cookie that is there.
abbrev pub cookie_text : Option String → String
cookie_text none = ""
cookie_text (some s) = s

module _ {C : Type 0} where
  unfoldable pub update_tokens :
      (RefreshToken → Bool) → (RefreshToken → RefreshToken) → Exec (World C) (Unit {0})
  unfolding modify_db
  update_tokens p f = modify_db (λ d. record d { refresh_tokens = update p f d.refresh_tokens })

  -- `select(RefreshToken).where(RefreshToken.token_hash == digest)`
  unfoldable pub find_token : ℕ → World C → Option RefreshToken
  find_token digest w = find (has_hash digest) w.refresh_tokens

  -- A revoked token is replayed: every live token of its user is revoked.
  unfoldable pub reuse_detected : Request → ℕ → RefreshToken → Exec (World C) Tokens
  unfolding update_tokens write_audit clear_refresh_cookie ◌>>=◌
  reuse_detected r now row = do
    update_tokens (is_live_of row.user_id) (revoke_at now)
    write_audit (
        audit_row r "auth.refresh.reuse_detected" "failure" (some row.user_id) none
          (some (field "all_tokens_revoked" (bool true) end)))
    clear_refresh_cookie
    raise (app auth "refresh token reuse detected; all sessions revoked")

  unfoldable pub refresh_expired : Request → ℕ → RefreshToken → Exec (World C) Tokens
  unfolding update_tokens audit_failure clear_refresh_cookie ◌>>=◌
  refresh_expired r now row = do
    update_tokens (has_id row.id) (revoke_at now)
    audit_failure r "auth.refresh" (some row.user_id) "expired"
    clear_refresh_cookie
    raise (app auth "refresh token expired")

  unfoldable pub logout_found : Request → ℕ → Option RefreshToken → Exec (World C) Bool
  unfolding update_tokens clear_refresh_cookie write_audit ◌>>=◌
  logout_found r now none = do
    clear_refresh_cookie
    write_audit (audit_row r "auth.logout" "no_op" none none none)
    pure false
  logout_found r now (some row) = do
    update_tokens (has_id row.id) (revoke_at now)
    clear_refresh_cookie
    write_audit (audit_row r "auth.logout" "success" (some row.user_id) none none)
    pure true

  -- The body of `logout_all`, for the current user.
  unfoldable pub revoke_all : Request → Draws → User → Exec (World C) (Unit {0})
  unfolding update_tokens clear_refresh_cookie write_audit ◌>>=◌
  revoke_all r d user = do
    revoked ← gets (λ w. count (is_live_of user.id) w.refresh_tokens)
    update_tokens (is_live_of user.id) (revoke_at d.now)
    clear_refresh_cookie
    write_audit (
        let row =
          audit_row r "auth.logout_all" "success" (some user.id) none
            (some (field "revoked_count" (int revoked) end)) in
        record row { request_id = r.request_id })

  module _ (sv : Services C) where
    -- The old token is revoked and a new one is issued.
    unfoldable pub rotate : Request → Draws → RefreshToken → User → Exec (World C) Tokens
    unfolding update_tokens ◌>>=◌
    rotate r d row user = do
      update_tokens (has_id row.id) (retire_at d.now)
      tokens ← issue_tokens sv r d user
      write_audit (audit_row r "auth.refresh" "success" (some user.id) none none)
      pure tokens

    -- The rest of `refresh` once the user of the row has been read.
    unfoldable pub refresh_user :
        Request → Draws → RefreshToken → Option User → Exec (World C) Tokens
    unfolding ◌>>=◌
    refresh_user r d row none = raise (app auth "user inactive")
    refresh_user r d row (some user) =
        if user.is_active then rotate r d row user else raise (app auth "user inactive")

    -- The rest of `refresh` once the row has been found.
    unfoldable pub refresh_row : Request → Draws → RefreshToken → Exec (World C) Tokens
    unfolding ◌>>=◌
    refresh_row r d row =
        if is_some row.revoked_at
        then reuse_detected r d.now row
        else if leb row.expires_at d.now
        then refresh_expired r d.now row
        else do user ← gets (get_user row.user_id); refresh_user r d row user

    unfoldable pub refresh_found : Request → Draws → Option RefreshToken → Exec (World C) Tokens
    unfolding ◌>>=◌
    refresh_found r d none = do
      audit_failure r "auth.refresh" none "unknown_token"
      raise (app auth "unknown refresh token")
    refresh_found r d (some row) = refresh_row r d row

    unfoldable pub refresh : Request → Draws → Exec (World C) Tokens
    unfolding ◌>>=◌
    refresh r d = if is_blank r.refresh_cookie then raise (app auth "missing refresh token") else do
      row ← gets (find_token (hash_refresh_token sv (cookie_text r.refresh_cookie)))
      refresh_found r d row

    -- The token that `logout` revokes: that of the cookie, if it is there and live.
    unfoldable pub logout_target : Request → World C → Option RefreshToken
    logout_target r w =
        if is_blank r.refresh_cookie
        then none
        else elim (find_token (hash_refresh_token sv (cookie_text r.refresh_cookie)) w) [
          | none ↦ none
          | some row ↦ if is_none row.revoked_at then some row else none
        ]

    -- The result is the field `revoked` of the response.
    unfoldable pub logout : Request → Draws → Exec (World C) Bool
    unfolding ◌>>=◌
    logout r d = do row ← gets (logout_target r); logout_found r d.now row

    unfoldable pub logout_all : Request → Draws → Exec (World C) (Unit {0})
    unfolding ◌>>=◌
    logout_all r d = do user ← get_current_user sv r d; revoke_all r d user
