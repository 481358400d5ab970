-- ===== src/Auth/Register/Outcome.antt =====
-- What `passkey_register_finish` of api/auth.py requires and does when it returns, and what it leaves
-- alone when it raises.
use aurum_platform.Common.{
  ℕ, ◌≡◌, refl, ◌⊎◌, inl, inr, String, Option, none, some, [], ◌∷◌, ◌++◌, Option-cases, or_text,
}
use aurum_platform.Json.{Value, Fields, null, bool, int, float, str, arr, obj, get}
use aurum_platform.Errors.{Exn}
use aurum_platform.Exec.{Result, ok, err, ◌>>=◌, Raised}
use aurum_platform.Models.{World, User, Request, Draws}
use aurum_platform.Services.{
  Services, Payload, register, login, Attempt, returned, raised, Verification,
}
use aurum_platform.Audit.{write_audit}
use aurum_platform.Deps.{get_user}
use aurum_platform.Auth.Challenge.{challenge_key, run_commands, consume_found, consume_challenge}
use aurum_platform.Auth.Tokens.{audit_failure}
use aurum_platform.Auth.Register.{
  new_passkey, find_credential, transports_in, register_verified, register_checked, register_cached,
  register_finish,
}

module _ {C : Type 0} (sv : Services C) (d : Draws) (credential : Fields)
    (nickname : Option String) where
  -- A registration with a challenge that was stored for a user: the user is there, the attestation
  -- was verified against the challenge, its credential was nobody's, and one new passkey of the user
  -- with that credential is stored after the others.
  pub record Registered (user_id challenge : ℕ) (cached : Option String) (w w' : World C)
      : Type 0 where
    pub user : User
    pub known : get_user user_id w ≡ some user
    pub verification : Verification
    pub verified : sv.verify_registration credential challenge ≡ returned verification
    pub fresh : find_credential verification.credential_id w ≡ none
    pub transports : Option Value
    pub passkeys :
        w'.passkeys
        ≡ w.passkeys ++ new_passkey d user.id verification transports (or_text nickname cached) ∷ []
    pub tokens : w'.refresh_tokens ≡ w.refresh_tokens

  Outcome : ℕ → ℕ → Option String → World C → Result ℕ × World C → Type 0
  Outcome user_id challenge cached w (ok i, w') = Registered user_id challenge cached w w'
  Outcome user_id challenge cached w (err e, w') =
      (w'.passkeys ≡ w.passkeys) × (w'.refresh_tokens ≡ w.refresh_tokens)

  transports-cases :
      (v : Option Value) (w : World C)
      → ((t : Option Value) × (transports_in v w ≡ (ok t, w)))
        ⊎ ((e : Exn) × (transports_in v w ≡ (err e, w)))
  unfolding transports_in
  transports-cases none w = inl (_, refl)
  transports-cases (some (obj f)) w = inl (_, refl)
  transports-cases (some null) w = inr (_, refl)
  transports-cases (some (bool b)) w = inr (_, refl)
  transports-cases (some (int n)) w = inr (_, refl)
  transports-cases (some (float s)) w = inr (_, refl)
  transports-cases (some (str s)) w = inr (_, refl)
  transports-cases (some (arr xs)) w = inr (_, refl)

  module _ (r : Request) (user_id challenge : ℕ) (cached : Option String) (w : World C) where
    verified-Outcome :
        (user : User) (v : Verification)
        → get_user user_id w ≡ some user
        → sv.verify_registration credential challenge ≡ returned v
        → Outcome user_id challenge cached w
            (register_verified sv r d credential nickname cached user v w)
    unfolding Outcome register_verified write_audit
    verified-Outcome user v known verified =
        elim (Option-cases (find_credential v.credential_id w)) [
          | inr (p, taken) ↦ simp taken (refl, refl)
          | inl fresh ↦ elim (transports-cases (get "response" credential) w) [
            | inr (e, odd) ↦ simp (fresh, odd) (refl, refl)
            | inl (t, read) ↦
                simp (fresh, read)
                  (record {
                    user = user;
                    known = known;
                    verification = v;
                    verified = verified;
                    fresh = fresh;
                    transports = t;
                    passkeys = refl;
                    tokens = refl;
                  })
          ]
        ]

    checked-Outcome :
        (user : User) (x : Attempt Verification)
        → get_user user_id w ≡ some user
        → sv.verify_registration credential challenge ≡ x
        → Outcome user_id challenge cached w
            (register_checked sv r d credential nickname cached user x w)
    unfolding Outcome register_checked write_audit
    checked-Outcome user (raised text) known e = (refl, refl)
    checked-Outcome user (returned v) known e = verified-Outcome user v known e

    cached-Outcome :
        Outcome user_id challenge cached w
          (register_cached sv r d credential nickname (some (register user_id challenge cached)) w)
    unfolding Outcome register_cached
    cached-Outcome = elim (Option-cases (get_user user_id w)) [
      | inl vanished ↦ simp vanished (refl, refl)
      | inr (user, known) ↦ simp known (checked-Outcome user _ known refl)
    ]

-- What a registration finds and does does not depend on the cache.
module _ {C : Type 0} (sv : Services C) (r : Request) (d : Draws) (id : String)
    (credential : Fields) (nickname : Option String) (w : World C) where
  drop_cache :
      (user_id challenge : ℕ) (cached : Option String) (c : C) (x : Result ℕ × World C)
      → Outcome sv d credential nickname user_id challenge cached (record w { cache = c }) x
      → Outcome sv d credential nickname user_id challenge cached w x
  unfolding Outcome find_credential get_user
  drop_cache user_id challenge cached c (ok i, w') h = record {
    user = h.user;
    known = h.known;
    verification = h.verification;
    verified = h.verified;
    fresh = h.fresh;
    transports = h.transports;
    passkeys = h.passkeys;
    tokens = h.tokens;
  }
  drop_cache user_id challenge cached c (err e, w') h = h

  -- A challenge of the kind "register" was stored under the identifier, and led to a registration.
  pub record Finished (w' : World C) : Type 0 where
    pub user_id : ℕ
    pub challenge : ℕ
    pub cached : Option String
    pub stored :
        sv.cache_get d.cache_now w.cache (challenge_key id "register")
        ≡ some (register user_id challenge cached)
    pub registered : Registered sv d credential nickname user_id challenge cached w w'

  FinishedOr : Result ℕ × World C → Type 0
  FinishedOr (ok i, w') = Finished w'
  FinishedOr (err e, w') = (w'.passkeys ≡ w.passkeys) × (w'.refresh_tokens ≡ w.refresh_tokens)

  of_Outcome :
      (user_id challenge : ℕ) (cached : Option String) (x : Result ℕ × World C)
      → sv.cache_get d.cache_now w.cache (challenge_key id "register")
        ≡ some (register user_id challenge cached)
      → Outcome sv d credential nickname user_id challenge cached w x
      → FinishedOr x
  unfolding FinishedOr Outcome
  of_Outcome user_id challenge cached (ok i, w') e h = record {
    user_id = user_id;
    challenge = challenge;
    cached = cached;
    stored = e;
    registered = h;
  }
  of_Outcome user_id challenge cached (err x, w') e h = h

  finish_at-FinishedOr :
      (x : Option Payload)
      → sv.cache_get d.cache_now w.cache (challenge_key id "register") ≡ x
      → FinishedOr (
          (run_commands sv d.cache_now (consume_found (challenge_key id "register") x)
              >>= register_cached sv r d credential nickname)
            w)
  unfolding FinishedOr run_commands consume_found ◌>>=◌
  finish_at-FinishedOr none e = unfold register_cached audit_failure write_audit in (refl, refl)
  finish_at-FinishedOr (some (login challenge hint)) e = unfold register_cached in (refl, refl)
  finish_at-FinishedOr (some (register user_id challenge cached)) e =
      let c = sv.cache_delete w.cache (challenge_key id "register") in
      of_Outcome user_id challenge cached _ e (
        drop_cache user_id challenge cached c _ (
          cached-Outcome sv d credential nickname r user_id challenge cached
            (record w { cache = c })))

  finish-FinishedOr : FinishedOr (register_finish sv r d id credential nickname w)
  unfolding register_finish consume_challenge run_commands
  finish-FinishedOr = finish_at-FinishedOr _ refl

  returned-Finished : (x : Result ℕ × World C) (i : ℕ) → FinishedOr x → x.0 ≡ ok i → Finished x.1
  unfolding FinishedOr
  returned-Finished (ok j, w') i h e = h
  returned-Finished (err x, w') i h e = cc

  Raised-kept :
      (x : Result ℕ × World C)
      → FinishedOr x
      → Raised x.0
      → (x.1.passkeys ≡ w.passkeys) × (x.1.refresh_tokens ≡ w.refresh_tokens)
  unfolding FinishedOr
  Raised-kept (ok j, w') h e = absurd e
  Raised-kept (err x, w') h e = h

  -- If `passkey_register_finish` returns, a registration challenge was stored under the identifier
  -- for a user who is there; the attestation was verified against that challenge, its credential was
  -- in no row, and one new passkey of that user with that credential is stored after the others,
  -- while the refresh tokens are as they were.
  pub register_sound :
      (i : ℕ)
      → (register_finish sv r d id credential nickname w).0 ≡ ok i
      → Finished (register_finish sv r d id credential nickname w).1
  register_sound i h =
      returned-Finished (register_finish sv r d id credential nickname w) i finish-FinishedOr h

  -- If `passkey_register_finish` raises, passkeys and refresh tokens are as they were.
  pub register_failure_keeps :
      Raised (register_finish sv r d id credential nickname w).0
      → let w' = (register_finish sv r d id credential nickname w).1 in
        (w'.passkeys ≡ w.passkeys) × (w'.refresh_tokens ≡ w.refresh_tokens)
  register_failure_keeps h =
      Raised-kept (register_finish sv r d id credential nickname w) finish-FinishedOr h
