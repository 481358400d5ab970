-- ===== src/Auth/Tokens.antt =====
-- Audit rows, the refresh cookie and `_issue_tokens` of api/auth.py.
use aurum_platform.Common.{ℕ, String, Option, none, some, [], ◌∷◌, ◌++◌}
use aurum_platform.Json.{Fields, end, field, str}
use aurum_platform.Exec.{Exec, pure, modify, ◌>>=◌, ◌>>◌}
use aurum_platform.Models.{World, User, RefreshToken, AuditRow, Request, Draws, cleared, set_to}
use aurum_platform.Services.{Services}
use aurum_platform.Session.{modify_db}
use aurum_platform.Audit.{write_audit}
use aurum_platform.Security.{create_access_token, generate_refresh_token, refresh_ttl}
use aurum_platform.Deps.{client_ip}

-- The row that a call of `write_audit` with the address and the agent of the request makes.
unfoldable pub audit_row :
    Request → String → String → Option ℕ → Option String → Option Fields → AuditRow
audit_row r action status user_id resource metadata = record {
  action = action;
  status = status;
  user_id = user_id;
  resource = resource;
  ip_address = client_ip r;
  user_agent = r.user_agent;
  request_id = none;
  metadata = metadata;
}

-- `metadata={"reason": reason}`
abbrev pub because : String → Option Fields
because reason = some (field "reason" (str reason) end)

-- `TokenResponse`
pub record Tokens : Type 0 where
  pub access_token : String
  pub expires_at : ℕ

module _ {C : Type 0} where
  -- `write_audit` with a status of "failure", no resource and a reason.
  unfoldable pub audit_failure : Request → String → Option ℕ → String → Exec (World C) (Unit {0})
  unfolding write_audit
  audit_failure r action user_id reason =
      write_audit (audit_row r action "failure" user_id none (because reason))

  -- `_set_refresh_cookie`
  unfoldable pub set_refresh_cookie : String → ℕ → Exec (World C) (Unit {0})
  unfolding modify
  set_refresh_cookie raw max_age = modify (λ w. record w { cookie = set_to raw max_age })

  -- `_clear_refresh_cookie`
  unfoldable pub clear_refresh_cookie : Exec (World C) (Unit {0})
  unfolding modify
  clear_refresh_cookie = modify (λ w. record w { cookie = cleared })

  unfoldable pub add_refresh_token : RefreshToken → Exec (World C) (Unit {0})
  unfolding modify_db
  add_refresh_token row =
      modify_db (λ d. record d { refresh_tokens = d.refresh_tokens ++ row ∷ [] })

  module _ (sv : Services C) where
    -- The row for a new refresh token of a user.
    unfoldable pub new_refresh_token : Request → Draws → User → RefreshToken
    unfolding generate_refresh_token
    new_refresh_token r d user =
        let (raw, digest, expires_at) = generate_refresh_token sv d in
        record {
          id = d.row_id;
          user_id = user.id;
          token_hash = digest;
          expires_at = expires_at;
          revoked_at = none;
          last_used_at = none;
          ip_address = client_ip r;
          user_agent = r.user_agent;
        }

    -- `_issue_tokens`
    unfoldable pub issue_tokens : Request → Draws → User → Exec (World C) Tokens
    unfolding add_refresh_token set_refresh_cookie ◌>>=◌
    issue_tokens r d user = do
      let (access, expires_at) = create_access_token sv d user.id user.role
      let (raw_refresh, digest, refresh_expires) = generate_refresh_token sv d
      add_refresh_token (new_refresh_token r d user)
      set_refresh_cookie raw_refresh refresh_ttl
      pure (record { access_token = access; expires_at = expires_at })
