-- ===== src/Auth/Login/Outcome.antt =====
-- What `passkey_login_finish` of api/auth.py requires and does when it returns tokens, and what it
-- leaves alone when it raises.
use aurum_platform.Common.{
  ℕ, ◌≡◌, refl, String, true, Option, none, some, [], ◌∷◌, ◌++◌, update, Bool-cases, inl, inr,
}
use aurum_platform.Json.{Value, Fields}
use aurum_platform.Errors.{app, auth}
use aurum_platform.Exec.{Result, ok, err, Raised, ◌>>=◌, or_raise, gets}
use aurum_platform.Models.{World, User, Passkey, Request, Draws}
use aurum_platform.Services.{Services, Payload, Attempt, returned, raised}
use aurum_platform.Audit.{write_audit}
use aurum_platform.Deps.{get_user}
use aurum_platform.Auth.Challenge.{consume_challenge, challenge_key, run_commands, consume_found}
use aurum_platform.Auth.Tokens.{Tokens, audit_failure, issue_tokens, new_refresh_token}
use aurum_platform.Auth.Register.{find_credential}
use aurum_platform.Auth.Login.{
  challenge_in, raw_id, id_value, passkey_has_id, used, decode_raw_id, login_verified,
  login_checked, login_inactive, login_user, login_passkey, login_cached, login_finish,
}

-- The tables that a login may write, as they were.
pub record SameAccounts {C : Type 0} (w w' : World C) : Type 0 where
  pub users : w'.users ≡ w.users
  pub passkeys : w'.passkeys ≡ w.passkeys
  pub tokens : w'.refresh_tokens ≡ w.refresh_tokens

module _ {C : Type 0} (sv : Services C) (r : Request) (d : Draws) (credential : Fields) where
  -- A login with a challenge: a stored passkey that the credential names, of an active user, whose
  -- assertion was verified against the challenge. The passkey has the new counter, and one new
  -- token of the user is stored.
  pub record LoggedIn (payload : Payload) (w w' : World C) : Type 0 where
    pub value : Value
    pub named : id_value (raw_id credential) ≡ some value
    pub credential_id : ℕ
    pub decoded : decode_raw_id sv value ≡ some credential_id
    pub passkey : Passkey
    pub stored : find_credential credential_id w ≡ some passkey
    pub user : User
    pub known : get_user passkey.user_id w ≡ some user
    pub active : user.is_active ≡ true
    pub sign_count : ℕ
    pub verified :
        sv.verify_authentication credential
          (challenge_in payload)
          passkey.public_key
          passkey.sign_count
        ≡ returned sign_count
    pub passkeys :
        w'.passkeys ≡ update (passkey_has_id passkey.id) (used sign_count d.now) w.passkeys
    pub tokens : w'.refresh_tokens ≡ w.refresh_tokens ++ new_refresh_token sv r d user ∷ []

  abbrev Outcome : Payload → World C → Result Tokens × World C → Type 0
  Outcome payload w (ok t, w') = LoggedIn payload w w'
  Outcome payload w (err e, w') = SameAccounts w w'

  module _ (payload : Payload) (w : World C) (value : Value)
      (named : id_value (raw_id credential) ≡ some value) (credential_id : ℕ)
      (decoded : decode_raw_id sv value ≡ some credential_id) (passkey : Passkey)
      (stored : find_credential credential_id w ≡ some passkey) where
    checked-Outcome :
        (user : User) (x : Attempt ℕ)
        → get_user passkey.user_id w ≡ some user
        → user.is_active ≡ true
        → sv.verify_authentication credential
            (challenge_in payload)
            passkey.public_key
            passkey.sign_count
          ≡ x
        → Outcome payload w (login_checked sv r d passkey user x w)
    unfolding login_checked login_verified issue_tokens write_audit
    checked-Outcome user (raised text) known active e = record {
      users = refl;
      passkeys = refl;
      tokens = refl;
    }
    checked-Outcome user (returned n) known active e = record {
      value = value;
      named = named;
      credential_id = credential_id;
      decoded = decoded;
      passkey = passkey;
      stored = stored;
      user = user;
      known = known;
      active = active;
      sign_count = n;
      verified = e;
      passkeys = refl;
      tokens = refl;
    }

    inactive-Outcome : Outcome payload w (login_inactive sv r passkey w)
    unfolding login_inactive audit_failure write_audit
    inactive-Outcome = record { users = refl; passkeys = refl; tokens = refl }

    user-Outcome :
        (x : Option User)
        → get_user passkey.user_id w ≡ x
        → Outcome payload w (login_user sv r d credential (challenge_in payload) passkey x w)
    unfolding login_user
    user-Outcome none e = inactive-Outcome
    user-Outcome (some user) e = elim (Bool-cases user.is_active) [
      | inl on ↦ simp on (checked-Outcome user _ e on refl)
      | inr off ↦ simp off inactive-Outcome
    ]

  module _ (payload : Payload) (w : World C) (value : Value)
      (named : id_value (raw_id credential) ≡ some value) (credential_id : ℕ)
      (decoded : decode_raw_id sv value ≡ some credential_id) where
    passkey-Outcome :
        (x : Option Passkey)
        → find_credential credential_id w ≡ x
        → Outcome payload w (login_passkey sv r d credential (challenge_in payload) x w)
    unfolding login_passkey
    passkey-Outcome none e =
        unfold audit_failure write_audit in record { users = refl; passkeys = refl; tokens = refl }
    passkey-Outcome (some passkey) e =
        user-Outcome payload w value named credential_id decoded passkey e _ refl

  module _ (payload : Payload) (w : World C) where
    decoded-Outcome :
        (value : Value) (x : Option ℕ)
        → id_value (raw_id credential) ≡ some value
        → decode_raw_id sv value ≡ x
        → Outcome payload w (
            (or_raise x (app auth "malformed credential id") >>= λ credential_id.
            gets (find_credential credential_id) >>= λ passkey.
            login_passkey sv r d credential (challenge_in payload) passkey)
              w)
    unfolding ◌>>=◌
    decoded-Outcome value none named e = record { users = refl; passkeys = refl; tokens = refl }
    decoded-Outcome value (some credential_id) named e =
        passkey-Outcome payload w value named credential_id e _ refl

    cached-Outcome :
        (x : Option Value)
        → id_value (raw_id credential) ≡ x
        → Outcome payload w (login_cached sv r d credential (some payload) w)
    unfolding login_cached
    cached-Outcome none e = simp e (record { users = refl; passkeys = refl; tokens = refl })
    cached-Outcome (some value) e = simp e (decoded-Outcome value (decode_raw_id sv value) e refl)

-- What a login by `w` finds and does does not depend on the cache.
module _ {C : Type 0} (sv : Services C) (r : Request) (d : Draws) (credential : Fields)
    (payload : Payload) (w : World C) (c : C) where
  drop_cache :
      (x : Result Tokens × World C)
      → Outcome sv r d credential payload (record w { cache = c }) x
      → Outcome sv r d credential payload w x
  unfolding find_credential get_user
  drop_cache (ok t, w') l = record {
    value = l.value;
    named = l.named;
    credential_id = l.credential_id;
    decoded = l.decoded;
    passkey = l.passkey;
    stored = l.stored;
    user = l.user;
    known = l.known;
    active = l.active;
    sign_count = l.sign_count;
    verified = l.verified;
    passkeys = l.passkeys;
    tokens = l.tokens;
  }
  drop_cache (err e, w') s = record { users = s.users; passkeys = s.passkeys; tokens = s.tokens }

module _ {C : Type 0} (sv : Services C) (r : Request) (d : Draws) (id : String)
    (credential : Fields) (w : World C) where
  -- What a login needs besides: a challenge of the kind "login" under the identifier.
  abbrev Finished : Result Tokens × World C → Type 0
  Finished (ok t, w') =
      (payload : Payload) × (sv.cache_get d.cache_now w.cache (challenge_key id "login")
        ≡ some payload)
      × LoggedIn sv r d credential payload w w'
  Finished (err e, w') = SameAccounts w w'

  Finished-of_Outcome :
      (payload : Payload) (x : Result Tokens × World C)
      → sv.cache_get d.cache_now w.cache (challenge_key id "login") ≡ some payload
      → Outcome sv r d credential payload w x
      → Finished x
  Finished-of_Outcome payload (ok t, w') e o = (payload, e, o)
  Finished-of_Outcome payload (err x, w') e o = o

  login-Finished_at :
      (x : Option Payload)
      → sv.cache_get d.cache_now w.cache (challenge_key id "login") ≡ x
      → Finished (
          (run_commands sv d.cache_now (consume_found (challenge_key id "login") x)
              >>= login_cached sv r d credential)
            w)
  unfolding run_commands consume_found ◌>>=◌
  login-Finished_at none e =
      unfold login_cached audit_failure write_audit in
      record { users = refl; passkeys = refl; tokens = refl }
  login-Finished_at (some payload) e = Finished-of_Outcome payload _ e (
      drop_cache sv r d credential payload w (sv.cache_delete w.cache (challenge_key id "login")) _
        (cached-Outcome sv r d credential payload _ _ refl))

  login-Finished : Finished (login_finish sv r d id credential w)
  unfolding login_finish consume_challenge run_commands
  login-Finished = login-Finished_at _ refl

  Finished-ok :
      (x : Result Tokens × World C) (t : Tokens)
      → Finished x
      → x.0 ≡ ok t
      → (payload : Payload) × (sv.cache_get d.cache_now w.cache (challenge_key id "login")
          ≡ some payload)
        × LoggedIn sv r d credential payload w x.1
  Finished-ok (ok u, w') t f e = f
  Finished-ok (err x, w') t f e = cc

  Finished-err : (x : Result Tokens × World C) → Finished x → Raised x.0 → SameAccounts w x.1
  Finished-err (ok u, w') f h = absurd h
  Finished-err (err e, w') f h = f

  -- If `passkey_login_finish` returns tokens, a login challenge was stored under the identifier; the
  -- credential names a stored passkey of an active user, and its assertion was verified against
  -- that challenge; the passkey has the new counter, and one new refresh token of that user is
  -- stored after the others.
  pub login_sound :
      (t : Tokens)
      → (login_finish sv r d id credential w).0 ≡ ok t
      → (payload : Payload) × (sv.cache_get d.cache_now w.cache (challenge_key id "login")
          ≡ some payload)
        × LoggedIn sv r d credential payload w (login_finish sv r d id credential w).1
  login_sound t h = Finished-ok (login_finish sv r d id credential w) t login-Finished h

  -- If `passkey_login_finish` raises, users, passkeys and refresh tokens are as they were.
  pub login_failure_keeps :
      Raised (login_finish sv r d id credential w).0
      → SameAccounts w (login_finish sv r d id credential w).1
  login_failure_keeps h = Finished-err (login_finish sv r d id credential w) login-Finished h
