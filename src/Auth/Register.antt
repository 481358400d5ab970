-- ===== src/Auth/Register.antt =====
-- `passkey_register_begin` and `passkey_register_finish` of api/auth.py.
pub mod Outcome
use aurum_platform.Common.{
  ℕ, String, Bool, Option, none, some, List, [], ◌∷◌, ◌++◌, map, ◌==◌, ◌<>◌, codes, lower,
  same_codes, clip, or_text, find, select, if◌then◌else◌,
}
use aurum_platform.Json.{Value, obj, Fields, end, field, str, get, truthy_at}
use aurum_platform.Errors.{app, auth, not_found, conflict, other}
use aurum_platform.Exec.{Exec, pure, raise, gets, or_raise, require, ◌>>=◌, ◌>>◌}
use aurum_platform.Models.{World, User, Passkey, Request, Draws}
use aurum_platform.Services.{
  Services, Payload, register, login, Verification, Attempt, returned, raised,
}
use aurum_platform.Session.{modify_db}
use aurum_platform.Audit.{write_audit}
use aurum_platform.Deps.{get_user}
use aurum_platform.Auth.Challenge.{store_challenge, consume_challenge}
use aurum_platform.Auth.Tokens.{audit_row, audit_failure}

-- `PasskeyRegisterBeginResponse` and `PasskeyLoginBeginResponse`
pub record Begun : Type 0 where
  pub challenge_id : String
  pub public_key : Value

-- `metadata={"reason": reason, "detail": str(exc)[:200]}`
abbrev pub because_of : String → String → Option Fields
because_of reason text =
    some (field "reason" (str reason) (field "detail" (str (clip 200 text)) end))

-- The row of a verified credential.
unfoldable pub new_passkey : Draws → ℕ → Verification → Option Value → Option String → Passkey
new_passkey d user_id v transports nickname = record {
  id = d.row_id;
  user_id = user_id;
  credential_id = v.credential_id;
  public_key = v.public_key;
  sign_count = v.sign_count;
  transports = transports;
  nickname = nickname;
  created_at = d.now;
  last_used_at = none;
}

module _ {C : Type 0} where
  -- `select(User).where(User.email == email.lower())`
  unfoldable pub find_email : String → World C → Option User
  find_email email w = find (λ u. same_codes (codes u.email) (lower email)) w.users

  -- `select(Passkey.credential_id).where(Passkey.user_id == user_id)`
  unfoldable pub credentials_of : ℕ → World C → List ℕ
  credentials_of user_id w =
      map (λ (p : Passkey). p.credential_id) (select (λ p. p.user_id == user_id) w.passkeys)

  -- `select(Passkey).where(Passkey.credential_id == credential_id)`
  unfoldable pub find_credential : ℕ → World C → Option Passkey
  find_credential credential_id w = find (λ p. p.credential_id == credential_id) w.passkeys

  unfoldable pub add_passkey : Passkey → Exec (World C) (Unit {0})
  unfolding modify_db
  add_passkey p = modify_db (λ d. record d { passkeys = d.passkeys ++ p ∷ [] })

  -- `body.credential.get("response", {}).get("transports") or None`: a response that is no dict has
  -- no method `get`.
  unfoldable pub transports_in : Option Value → Exec (World C) (Option Value)
  unfolding pure raise
  transports_in none = pure none
  transports_in (some (obj f)) =
      pure (if truthy_at (get "transports" f) then get "transports" f else none)
  transports_in (some _) = raise (other "AttributeError")

  module _ (sv : Services C) where
    unfoldable pub register_begin_for :
        Request → Draws → Option String → Option User → Exec (World C) Begun
    unfolding ◌>>=◌
    register_begin_for r d nickname none = do
      audit_failure r "auth.register.begin" none "unknown_email"
      raise (app not_found "registration not permitted for this email")
    register_begin_for r d nickname (some user) = do
      existing ← gets (credentials_of user.id)
      challenge_id ← store_challenge sv d "register" (register user.id d.challenge nickname)
      write_audit (audit_row r "auth.register.begin" "success" (some user.id) none none)
      pure (record {
        challenge_id = challenge_id;
        public_key = sv.registration_options d.challenge user existing;
      })

    unfoldable pub register_begin : Request → Draws → String → Option String → Exec (World C) Begun
    unfolding ◌>>=◌
    register_begin r d email nickname = do
      user ← gets (find_email email)
      register_begin_for r d nickname user

    -- The rest of the handler for a verified credential.
    unfoldable pub register_verified :
        Request
        → Draws
        → Fields
        → Option String
        → Option String
        → User
        → Verification
        → Exec (World C) ℕ
    unfolding add_passkey ◌>>=◌
    register_verified r d credential nickname cached user v = do
      dup ← gets (find_credential v.credential_id)
      require (elim dup [ none ↦ Bool.true | some _ ↦ Bool.false ])
          (app conflict "credential already registered")
      transports ← transports_in (get "response" credential)
      let passkey = new_passkey d user.id v transports (or_text nickname cached)
      add_passkey passkey
      write_audit (
          audit_row r "auth.register.finish" "success" (some user.id)
            (some ("passkey:" <> sv.uuid_text passkey.id)) none)
      pure passkey.id

    unfoldable pub register_checked :
        Request
        → Draws
        → Fields
        → Option String
        → Option String
        → User
        → Attempt Verification
        → Exec (World C) ℕ
    unfolding ◌>>=◌
    register_checked r d credential nickname cached user (raised text) = do
      write_audit (
          audit_row r "auth.register.finish" "failure" (some user.id) none
            (because_of "verification_failed" text))
      raise (app auth "registration verification failed")
    register_checked r d credential nickname cached user (returned v) =
        register_verified r d credential nickname cached user v

    -- A payload without the key `user_id` raises at `cached["user_id"]`.
    unfoldable pub register_cached :
        Request → Draws → Fields → Option String → Option Payload → Exec (World C) ℕ
    unfolding ◌>>=◌
    register_cached r d credential nickname none = do
      audit_failure r "auth.register.finish" none "challenge_expired_or_unknown"
      raise (app auth "challenge expired or unknown")
    register_cached r d credential nickname (some (login challenge hint)) = raise (other "KeyError")
    register_cached r d credential nickname (some (register user_id challenge cached)) = do
      found ← gets (get_user user_id)
      user ← or_raise found (app not_found "user vanished mid-registration")
      register_checked r d credential nickname cached user
          (sv.verify_registration credential challenge)

    -- The result is the identifier of the new passkey.
    unfoldable pub register_finish :
        Request → Draws → String → Fields → Option String → Exec (World C) ℕ
    unfolding ◌>>=◌
    register_finish r d challenge_id credential nickname = do
      cached ← consume_challenge sv d "register" challenge_id
      register_cached r d credential nickname cached
