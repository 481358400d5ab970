-- ===== src/Tests/Accounts.antt =====
-- Logins and passkeys.
use aurum_platform.Common.{arith, ◌≤◌, ◌≡◌, refl, none, some, [], ◌∷◌, find, count, inl}
use aurum_platform.Json.{Fields, str, end, field, get, truthy}
use aurum_platform.Errors.{app, not_found}
use aurum_platform.Exec.{ok, err}
use aurum_platform.Models.{World}
use aurum_platform.Services.{Payload, login, register, returned, Services}
use aurum_platform.Audit.{write_audit}
use aurum_platform.Security.{create_access_token}
use aurum_platform.Deps.{get_user}
use aurum_platform.Auth.Challenge.{challenge_key, consume_challenge}
use aurum_platform.Auth.Tokens.{Tokens, issue_tokens}
use aurum_platform.Auth.Register.{
  find_credential, register_finish, register_cached, register_checked, register_verified,
  transports_in, new_passkey,
}
use aurum_platform.Auth.Login.{
  login_finish, login_cached, login_passkey, login_user, login_checked, login_verified, raw_id,
  decode_raw_id,
}
use aurum_platform.Auth.Login.Outcome.{LoggedIn, login_sound}
use aurum_platform.Me.{owned_by, rename_own, remove_own, remove_passkey}
use aurum_platform.Me.Ownership.{NotOwned, not_owned_refused, remove_keeps_one}
use aurum_platform.Tests.Cache.{
  Cache, services, services-IsRedis, user_one, passkey_one, world_with, request, draws, lookup,
}
use aurum_platform.Auth.Challenge.Race.{left, right, interleave, both_consume, Ends, challenge_race}
use aurum_platform.Auth.Register.Outcome.{Finished, register_sound}

abbrev two : World Cache
two = world_with [] (passkey_one 20 ∷ passkey_one 21 ∷ [])

-- The same with a login challenge under "c".
abbrev challenged : World Cache
challenged = record two { cache = (challenge_key "c" "login", login 5 none, 300) ∷ [] }

abbrev credential : Fields
credential = field "rawId" (str "Bw") end

abbrev granted : Tokens
granted = record { access_token = "token"; expires_at = 900000050 }

logged_in : (login_finish services (request "") draws "c" credential challenged).0 ≡ ok granted
unfolding login_finish consume_challenge login_cached login_passkey login_user login_checked
    login_verified raw_id decode_raw_id issue_tokens find find_credential get_user write_audit
    create_access_token lookup get truthy challenge_key
logged_in = refl

login_sound_example :
    (payload : Payload) × (services.cache_get 0 challenged.cache (challenge_key "c" "login")
      ≡ some payload)
    × LoggedIn services
        (request "")
        draws
        credential
        payload
        challenged
        (login_finish services (request "") draws "c" credential challenged).1
login_sound_example =
    login_sound services (request "") draws "c" credential challenged granted logged_in

-- Nobody has the passkey 99.
not_owned_refused_example :
    (rename_own services (request "") 99 "phone" user_one two
      ≡ (err (app not_found "passkey not found"), two))
    × (remove_own services (request "") 99 user_one two
        ≡ (err (app not_found "passkey not found"), two))
unfolding NotOwned find
not_owned_refused_example =
    not_owned_refused 99 user_one two services (request "") "phone" (inl refl)

remove_keeps_one_example :
    1 ≤ count (owned_by 1) (remove_passkey services (request "") draws 20 two).1.passkeys
unfolding find count
remove_keeps_one_example =
    remove_keeps_one services (request "") draws 20 1 two (refl, (refl, tt)) (omega arith)

challenge_race_example :
    let key = challenge_key "c" "login" in
    (consume_challenge services draws "login" "c" challenged ≡ (
      ok (some (login 5 none)),
      (interleave services draws.cache_now (left ∷ left ∷ []) (both_consume key challenged)).shared,
    ))
    × Ends services draws.cache_now key (login 5 none) left none (
        interleave services draws.cache_now
          (left ∷ left ∷ right ∷ right ∷ [])
          (both_consume key challenged))
    × Ends services draws.cache_now key (login 5 none) left (some (login 5 none)) (
        interleave services draws.cache_now
          (left ∷ right ∷ right ∷ left ∷ [])
          (both_consume key challenged))
unfolding lookup challenge_key
challenge_race_example =
    challenge_race services services-IsRedis draws "login" "c" (login 5 none) challenged refl left
      right

-- The same with a registration challenge, and services that verify every attestation.
abbrev registering : World Cache
registering = record two { cache = (challenge_key "c" "register", register 1 5 none, 300) ∷ [] }

abbrev verifying : Services Cache
verifying = record services {
  verify_registration =
      λ o c. returned (record { credential_id = 9; public_key = 3; sign_count = 0 });
}

registered : (register_finish verifying (request "") draws "c" end none registering).0 ≡ ok 11
unfolding register_finish consume_challenge register_cached register_checked register_verified
    transports_in new_passkey find find_credential get_user write_audit lookup get truthy
    challenge_key
registered = refl

register_sound_example :
    Finished verifying
      (request "")
      draws
      "c"
      end
      none
      registering
      (register_finish verifying (request "") draws "c" end none registering).1
register_sound_example =
    register_sound verifying (request "") draws "c" end none registering 11 registered
