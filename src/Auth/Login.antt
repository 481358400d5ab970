-- ===== src/Auth/Login.antt =====
-- `passkey_login_begin` and `passkey_login_finish` of api/auth.py.
pub mod Outcome
use aurum_platform.Common.{
  ℕ, String, Bool, true, false, Option, none, some, List, [], ◌∷◌, ◌==◌, ◌<>◌, is_blank, update,
  if◌then◌else◌,
}
use aurum_platform.Json.{Value, str, Fields, get, truthy_at}
use aurum_platform.Errors.{app, auth}
use aurum_platform.Exec.{Exec, pure, raise, gets, or_raise, require, ◌>>=◌, ◌>>◌}
use aurum_platform.Models.{World, User, Passkey, Request, Draws}
use aurum_platform.Services.{Services, Payload, register, login, Attempt, returned, raised}
use aurum_platform.Session.{modify_db}
use aurum_platform.Audit.{write_audit}
use aurum_platform.Deps.{get_user}
use aurum_platform.Auth.Challenge.{store_challenge, consume_challenge}
use aurum_platform.Auth.Tokens.{Tokens, audit_row, audit_failure, issue_tokens}
use aurum_platform.Auth.Register.{Begun, because_of, find_email, credentials_of, find_credential}

abbrev pub id_of : Option User → Option ℕ
id_of none = none
id_of (some u) = some u.id

-- `cached["challenge_b64"]`, which both kinds of challenge have.
abbrev pub challenge_in : Payload → ℕ
challenge_in (register user_id challenge nickname) = challenge
challenge_in (login challenge hint) = challenge

-- `body.credential.get("rawId") or body.credential.get("id")`
unfoldable pub raw_id : Fields → Option Value
raw_id f = if truthy_at (get "rawId" f) then get "rawId" f else get "id" f

abbrev pub passkey_has_id : ℕ → Passkey → Bool
passkey_has_id i p = p.id == i

abbrev pub used : ℕ → ℕ → Passkey → Passkey
used sign_count now p = record p { sign_count = sign_count; last_used_at = some now }

-- The value of a key that is there and true.
abbrev pub id_value : Option Value → Option Value
id_value v = if truthy_at v then v else none

module _ {C : Type 0} where
  -- The user that an e-mail address in the request hints at.
  unfoldable pub hinted_user : Option String → World C → Option User
  hinted_user none w = none
  hinted_user (some email) w = if is_blank (some email) then none else find_email email w

  unfoldable pub allowed_credentials : Option User → World C → List ℕ
  allowed_credentials none w = []
  allowed_credentials (some user) w = credentials_of user.id w

  unfoldable pub update_passkeys :
      (Passkey → Bool) → (Passkey → Passkey) → Exec (World C) (Unit {0})
  unfolding modify_db
  update_passkeys p f = modify_db (λ d. record d { passkeys = update p f d.passkeys })

  module _ (sv : Services C) where
    unfoldable pub login_begin : Request → Draws → Option String → Exec (World C) Begun
    unfolding ◌>>=◌
    login_begin r d email = do
      hint ← gets (hinted_user email)
      allowed ← gets (allowed_credentials hint)
      challenge_id ← store_challenge sv d "login" (login d.challenge (id_of hint))
      write_audit (audit_row r "auth.login.begin" "success" (id_of hint) none none)
      pure (record {
        challenge_id = challenge_id;
        public_key = sv.authentication_options d.challenge allowed;
      })

    -- `base64.urlsafe_b64decode(raw_id + "==")`, where any exception is caught.
    unfoldable pub decode_raw_id : Value → Option ℕ
    decode_raw_id (str s) = sv.decode_b64 (s <> "==")
    decode_raw_id _ = none

    -- The rest of the handler for a verified assertion.
    unfoldable pub login_verified : Request → Draws → Passkey → User → ℕ → Exec (World C) Tokens
    unfolding update_passkeys ◌>>=◌
    login_verified r d passkey user sign_count = do
      update_passkeys (passkey_has_id passkey.id) (used sign_count d.now)
      tokens ← issue_tokens sv r d user
      write_audit (
          audit_row r "auth.login.success" "success" (some user.id)
            (some ("passkey:" <> sv.uuid_text passkey.id)) none)
      pure tokens

    unfoldable pub login_checked :
        Request → Draws → Passkey → User → Attempt ℕ → Exec (World C) Tokens
    unfolding ◌>>=◌
    login_checked r d passkey user (raised text) = do
      write_audit (
          audit_row r "auth.login.finish" "failure" (some user.id) none
            (because_of "assertion_failed" text))
      raise (app auth "assertion verification failed")
    login_checked r d passkey user (returned sign_count) =
        login_verified r d passkey user sign_count

    unfoldable pub login_inactive : Request → Passkey → Exec (World C) Tokens
    unfolding ◌>>=◌
    login_inactive r passkey = do
      audit_failure r "auth.login.finish" (some passkey.user_id) "user_inactive"
      raise (app auth "user inactive")

    unfoldable pub login_user :
        Request → Draws → Fields → ℕ → Passkey → Option User → Exec (World C) Tokens
    login_user r d credential challenge passkey none = login_inactive r passkey
    login_user r d credential challenge passkey (some user) =
        if user.is_active
        then login_checked r d passkey user
            (sv.verify_authentication credential challenge passkey.public_key passkey.sign_count)
        else login_inactive r passkey

    unfoldable pub login_passkey :
        Request → Draws → Fields → ℕ → Option Passkey → Exec (World C) Tokens
    unfolding ◌>>=◌
    login_passkey r d credential challenge none = do
      audit_failure r "auth.login.finish" none "unknown_credential"
      raise (app auth "unknown credential")
    login_passkey r d credential challenge (some passkey) = do
      user ← gets (get_user passkey.user_id)
      login_user r d credential challenge passkey user

    unfoldable pub login_cached : Request → Draws → Fields → Option Payload → Exec (World C) Tokens
    unfolding ◌>>=◌
    login_cached r d credential none = do
      audit_failure r "auth.login.finish" none "challenge_expired_or_unknown"
      raise (app auth "challenge expired or unknown")
    login_cached r d credential (some payload) = do
      value ← or_raise (id_value (raw_id credential)) (app auth "credential missing id")
      credential_id ← or_raise (decode_raw_id value) (app auth "malformed credential id")
      passkey ← gets (find_credential credential_id)
      login_passkey r d credential (challenge_in payload) passkey

    unfoldable pub login_finish : Request → Draws → String → Fields → Exec (World C) Tokens
    unfolding ◌>>=◌
    login_finish r d challenge_id credential = do
      cached ← consume_challenge sv d "login" challenge_id
      login_cached r d credential cached
