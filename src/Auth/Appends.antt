-- ===== src/Auth/Appends.antt =====
-- Every handler of api/auth.py only adds to the audit log.
use aurum_platform.Common.{refl, ℕ, String, Bool, Option, none, some}
use aurum_platform.Json.{Fields, Value, obj}
use aurum_platform.Exec.Respects.{Respects, respects_rules, Respects-if}
use aurum_platform.Models.{User, Passkey, RefreshToken, Request, Draws}
use aurum_platform.Services.{
  Services, Payload, register, login, Attempt, returned, raised, Verification,
}
use aurum_platform.Audit.AppendOnly.{
  Appends, Appends-none, Appends-preorder, write_audit-Appends, modify-Appends, modify_db-Appends,
  serve-Appends,
}
use aurum_platform.Deps.{get_current_user}
use aurum_platform.Deps.CurrentUser.{get_current_user-Same}
use aurum_platform.Auth.Challenge.{
  Commands, returns, get_then, delete_then, run_commands, consume_commands, challenge_key,
  store_challenge, consume_challenge,
}
use aurum_platform.Auth.Tokens.{
  audit_failure, set_refresh_cookie, clear_refresh_cookie, add_refresh_token, issue_tokens,
}
use aurum_platform.Auth.Register.{
  add_passkey, transports_in, register_begin_for, register_begin, register_verified,
  register_checked, register_cached, register_finish,
}
use aurum_platform.Auth.Login.{
  update_passkeys, login_begin, login_verified, login_checked, login_inactive, login_user,
  login_passkey, login_cached, login_finish,
}
use aurum_platform.Auth.Refresh.{update_tokens}

module _ {C : Type 0} where
  pub get_current_user-Appends :
      (sv : Services C) (r : Request) (d : Draws) → Respects Appends (get_current_user sv r d)
  get_current_user-Appends sv r d = record {
    at = λ s. Appends-none s _ (λ i. ((get_current_user-Same sv r d).at s i).audit_log);
  }

  pub audit_failure-Appends :
      (r : Request) (action : String) (user_id : Option ℕ) (reason : String)
      → Respects Appends (audit_failure {C = C} r action user_id reason)
  unfolding audit_failure
  audit_failure-Appends r action user_id reason = write_audit-Appends _

  pub set_refresh_cookie-Appends :
      (raw : String) (age : ℕ) → Respects Appends (set_refresh_cookie {C = C} raw age)
  unfolding set_refresh_cookie
  set_refresh_cookie-Appends raw age = modify-Appends _ (λ s. refl)

  pub clear_refresh_cookie-Appends : Respects Appends (clear_refresh_cookie {C = C})
  unfolding clear_refresh_cookie
  clear_refresh_cookie-Appends = modify-Appends _ (λ s. refl)

  pub add_refresh_token-Appends :
      (row : RefreshToken) → Respects Appends (add_refresh_token {C = C} row)
  unfolding add_refresh_token
  add_refresh_token-Appends row = modify_db-Appends _ (λ d. refl)

  pub update_tokens-Appends :
      (p : RefreshToken → Bool) (f : RefreshToken → RefreshToken)
      → Respects Appends (update_tokens {C = C} p f)
  unfolding update_tokens
  update_tokens-Appends p f = modify_db-Appends _ (λ d. refl)

  pub add_passkey-Appends : (p : Passkey) → Respects Appends (add_passkey {C = C} p)
  unfolding add_passkey
  add_passkey-Appends p = modify_db-Appends _ (λ d. refl)

  pub update_passkeys-Appends :
      (p : Passkey → Bool) (f : Passkey → Passkey) → Respects Appends (update_passkeys {C = C} p f)
  unfolding update_passkeys
  update_passkeys-Appends p f = modify_db-Appends _ (λ d. refl)

  pub transports_in-Appends : (v : Option Value) → Respects Appends (transports_in {C = C} v)
  unfolding transports_in
  transports_in-Appends none = record { at = λ s. Appends-none s s refl }
  transports_in-Appends (some (obj f)) = record { at = λ s. Appends-none s s refl }
  transports_in-Appends (some _) = record { at = λ s. Appends-none s s refl }

pub ruleset basic_rules = (
  respects_rules, Appends-preorder, write_audit-Appends, audit_failure-Appends,
  set_refresh_cookie-Appends, clear_refresh_cookie-Appends, add_refresh_token-Appends,
  update_tokens-Appends, add_passkey-Appends, update_passkeys-Appends, transports_in-Appends,
  get_current_user-Appends,
)

module _ {C : Type 0} (sv : Services C) where
  store_challenge-Appends :
      (d : Draws) (kind : String) (p : Payload) → Respects Appends (store_challenge sv d kind p)
  unfolding store_challenge
  store_challenge-Appends d kind p = record { at = λ s. Appends-none s _ refl }

  run_commands-Appends :
      {A : Type 0} (now : ℕ) (m : Commands A) → Respects Appends (run_commands sv now m)
  unfolding run_commands
  run_commands-Appends now (returns a) = record { at = λ s. Appends-preorder.rfl s }
  run_commands-Appends now (get_then key next) = record {
    at = λ s. (run_commands-Appends now (next (sv.cache_get now s.cache key))).at s;
  }
  run_commands-Appends now (delete_then key next) = record {
    at = λ s.
        let deleted = record s { cache = sv.cache_delete s.cache key } in
        Appends-preorder.trans s deleted (run_commands sv now next deleted).1
          (Appends-none s deleted refl) ((run_commands-Appends now next).at deleted);
  }

  consume_challenge-Appends :
      (d : Draws) (kind id : String) → Respects Appends (consume_challenge sv d kind id)
  unfolding consume_challenge
  consume_challenge-Appends d kind id =
      run_commands-Appends d.cache_now (consume_commands (challenge_key id kind))

  pub issue_tokens-Appends :
      (r : Request) (d : Draws) (user : User) → Respects Appends (issue_tokens sv r d user)
  unfolding issue_tokens
  issue_tokens-Appends r d user = search basic_rules

  register_begin_for-Appends :
      (r : Request) (d : Draws) (nickname : Option String) (u : Option User)
      → Respects Appends (register_begin_for sv r d nickname u)
  unfolding register_begin_for
  register_begin_for-Appends r d nickname none = search basic_rules
  register_begin_for-Appends r d nickname (some u) =
      search (basic_rules, store_challenge-Appends) depth 7

  pub register_begin-Appends :
      (r : Request) (d : Draws) (email : String) (nickname : Option String)
      → Respects Appends (register_begin sv r d email nickname)
  unfolding register_begin
  register_begin-Appends r d email nickname = search (basic_rules, register_begin_for-Appends)

  register_verified-Appends :
      (r : Request) (d : Draws) (credential : Fields) (nickname cached : Option String) (u : User)
      (v : Verification)
      → Respects Appends (register_verified sv r d credential nickname cached u v)
  unfolding register_verified
  register_verified-Appends r d credential nickname cached u v = search basic_rules depth 9

  register_checked-Appends :
      (r : Request) (d : Draws) (credential : Fields) (nickname cached : Option String) (u : User)
      (v : Attempt Verification)
      → Respects Appends (register_checked sv r d credential nickname cached u v)
  unfolding register_checked
  register_checked-Appends r d credential nickname cached u (raised text) = search basic_rules
  register_checked-Appends r d credential nickname cached u (returned v) =
      register_verified-Appends r d credential nickname cached u v

  register_cached-Appends :
      (r : Request) (d : Draws) (credential : Fields) (nickname : Option String)
      (p : Option Payload)
      → Respects Appends (register_cached sv r d credential nickname p)
  unfolding register_cached
  register_cached-Appends r d credential nickname none = search basic_rules
  register_cached-Appends r d credential nickname (some (login challenge hint)) = search basic_rules
  register_cached-Appends r d credential nickname (some (register user_id challenge cached)) =
      search (basic_rules, register_checked-Appends)

  pub register_finish-Appends :
      (r : Request) (d : Draws) (id : String) (credential : Fields) (nickname : Option String)
      → Respects Appends (register_finish sv r d id credential nickname)
  unfolding register_finish
  register_finish-Appends r d id credential nickname =
      search (basic_rules, consume_challenge-Appends, register_cached-Appends)

  pub login_begin-Appends :
      (r : Request) (d : Draws) (email : Option String)
      → Respects Appends (login_begin sv r d email)
  unfolding login_begin
  login_begin-Appends r d email = search (basic_rules, store_challenge-Appends) depth 8

  login_verified-Appends :
      (r : Request) (d : Draws) (p : Passkey) (u : User) (n : ℕ)
      → Respects Appends (login_verified sv r d p u n)
  unfolding login_verified
  login_verified-Appends r d p u n = search (basic_rules, issue_tokens-Appends) depth 7

  login_checked-Appends :
      (r : Request) (d : Draws) (p : Passkey) (u : User) (x : Attempt ℕ)
      → Respects Appends (login_checked sv r d p u x)
  unfolding login_checked
  login_checked-Appends r d p u (raised text) = search basic_rules
  login_checked-Appends r d p u (returned n) = login_verified-Appends r d p u n

  login_inactive-Appends : (r : Request) (p : Passkey) → Respects Appends (login_inactive sv r p)
  unfolding login_inactive
  login_inactive-Appends r p = search basic_rules

  login_user-Appends :
      (r : Request) (d : Draws) (credential : Fields) (challenge : ℕ) (p : Passkey)
      (u : Option User)
      → Respects Appends (login_user sv r d credential challenge p u)
  unfolding login_user
  login_user-Appends r d credential challenge p none = login_inactive-Appends r p
  login_user-Appends r d credential challenge p (some u) =
      search (basic_rules, login_checked-Appends, login_inactive-Appends)

  login_passkey-Appends :
      (r : Request) (d : Draws) (credential : Fields) (challenge : ℕ) (p : Option Passkey)
      → Respects Appends (login_passkey sv r d credential challenge p)
  unfolding login_passkey
  login_passkey-Appends r d credential challenge none = search basic_rules
  login_passkey-Appends r d credential challenge (some p) = search (basic_rules, login_user-Appends)

  login_cached-Appends :
      (r : Request) (d : Draws) (credential : Fields) (p : Option Payload)
      → Respects Appends (login_cached sv r d credential p)
  unfolding login_cached
  login_cached-Appends r d credential none = search basic_rules
  login_cached-Appends r d credential (some p) = search (basic_rules, login_passkey-Appends) depth 8

  pub login_finish-Appends :
      (r : Request) (d : Draws) (id : String) (credential : Fields)
      → Respects Appends (login_finish sv r d id credential)
  unfolding login_finish
  login_finish-Appends r d id credential =
      search (basic_rules, consume_challenge-Appends, login_cached-Appends)
