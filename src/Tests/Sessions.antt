-- ===== src/Tests/Sessions.antt =====
-- Sessions: refresh, logout, login and the current user.
use aurum_platform.Audit.{write_audit}
use aurum_platform.Common.{
  arith, ◌≡◌, refl, none, some, [], ◌∷◌, is_blank, is_empty, find, update, if◌then◌else◌, ltb, ◌+◌,
}
use aurum_platform.Errors.{problem}
use aurum_platform.Exec.{ok, Raised}
use aurum_platform.Models.{World, RefreshToken, User}
use aurum_platform.Services.{login}
use aurum_platform.Session.{begin, serve, failure}
use aurum_platform.Security.{hash_refresh_token, create_access_token}
use aurum_platform.Deps.{get_current_user, get_user}
use aurum_platform.Deps.CurrentUser.{Authenticates, entered_Authenticates}
use aurum_platform.Auth.Challenge.{challenge_key, store_challenge, consume_challenge}
use aurum_platform.Auth.Challenge.OneShot.{challenge_lifetime, consume_once}
use aurum_platform.Auth.Tokens.{Tokens, issue_tokens}
use aurum_platform.Auth.Refresh.{
  is_live_of, refresh, refresh_found, refresh_row, refresh_user, rotate, find_token, logout,
  logout_target, logout_all, revoke_all,
}
use aurum_platform.Auth.Refresh.Accepts.{
  presented, Accepts, Rotated, refresh_sound, refresh_complete,
}
use aurum_platform.Auth.Refresh.Rotation.{replay_ends_chain, rotation_goes_on}
use aurum_platform.Auth.Refresh.Revocation.{
  AllRevoked, of_others, refresh_reuse, logout_all_ends_sessions,
}
use aurum_platform.Auth.Refresh.Logout.{logout_spends_token}
use aurum_platform.Tests.Cache.{
  Cache, services, services-IsRedis, user_one, token_one, world_with, request, draws,
}

abbrev revoked_one : RefreshToken
revoked_one = record token_one { revoked_at = some 40 }

abbrev spent : World Cache
spent = world_with (revoked_one ∷ []) []

abbrev live : World Cache
live = world_with (token_one ∷ []) []

refresh_reuse_example :
    let (reply, w') = serve (some 77) (refresh services (request "old") draws) spent in
    (reply
      ≡ failure (
          problem 401 "unauthorized" "refresh token reuse detected; all sessions revoked"
            (some 77)))
    × AllRevoked 1 w'.committed.refresh_tokens
    × (of_others 1 w'.committed.refresh_tokens ≡ of_others 1 spent.committed.refresh_tokens)
unfolding find_token hash_refresh_token is_blank begin find
refresh_reuse_example =
    refresh_reuse services (request "old") draws spent revoked_one refl refl refl

-- The token is stored, live and in time.
live_Accepts : Accepts services (request "old") draws live token_one user_one
unfolding find_token hash_refresh_token is_blank find get_user
live_Accepts = record {
  cookie = refl;
  stored = refl;
  live = refl;
  in_time = refl;
  known = refl;
  active = refl;
}

refresh_complete_example : (t : Tokens) × ((refresh services (request "old") draws live).0 ≡ ok t)
refresh_complete_example =
    refresh_complete services (request "old") draws live token_one user_one live_Accepts

abbrev granted : Tokens
granted = record { access_token = "token"; expires_at = 900000050 }

-- The refresh of the live token, run.
live_granted : (refresh services (request "old") draws live).0 ≡ ok granted
unfolding refresh refresh_found refresh_row refresh_user rotate issue_tokens find_token
    hash_refresh_token is_blank find get_user write_audit create_access_token
live_granted = refl

refresh_sound_example :
    (row : RefreshToken) × (user : User) × Accepts services (request "old") draws live row user
    × Rotated services
        (request "old")
        draws
        live
        row
        user
        (refresh services (request "old") draws live).1
refresh_sound_example = refresh_sound services (request "old") draws live granted live_granted

replay_ends_chain_example :
    (row : RefreshToken) × (find_token (presented services (request "old")) live ≡ some row)
    × Raised
        (refresh services (request "old") draws (refresh services (request "old") draws live).1).0
    × AllRevoked row.user_id
        (refresh services
          (request "old")
          draws
          (refresh services (request "old") draws live).1).1.refresh_tokens
replay_ends_chain_example =
    replay_ends_chain services (request "old") (request "old") draws draws live granted live_granted
      refl

rotation_goes_on_example :
    (t' : Tokens) × ((refresh services
        (request "new")
        draws
        (refresh services (request "old") draws live).1).0
      ≡ ok t')
unfolding find_token find is_empty
rotation_goes_on_example =
    rotation_goes_on services (request "old") (request "new") draws draws live granted live_granted
      refl refl refl (omega arith)

entered_one : (get_current_user services (request "old") draws live).0 ≡ ok user_one
unfolding get_current_user find
entered_one = refl

entered_Authenticates_example : Authenticates services (request "old") draws live user_one
entered_Authenticates_example =
    entered_Authenticates services (request "old") draws live user_one entered_one

logout_all_ends_sessions_example :
    Raised
      (refresh services (request "old") draws (logout_all services (request "old") draws live).1).0
    × (of_others 1 (logout_all services (request "old") draws live).1.refresh_tokens
        ≡ of_others 1 live.refresh_tokens)
unfolding logout_all get_current_user revoke_all find_token find is_blank update is_live_of
    hash_refresh_token
logout_all_ends_sessions_example =
    logout_all_ends_sessions services (request "old") (request "old") draws draws live user_one
      (record token_one { revoked_at = some 50 }) entered_one refl refl refl

logout_spends_token_example :
    Raised (refresh services (request "old") draws (logout services (request "old") draws live).1).0
unfolding logout_target find_token find is_blank hash_refresh_token
logout_spends_token_example =
    logout_spends_token services (request "old") draws draws live token_one refl

challenge_lifetime_example :
    (consume_challenge services draws "login" "c"
      (store_challenge services draws "login" (login 5 none) live).1).0
    ≡ ok (if ltb 0 (0 + 300) then some (login 5 none) else none)
challenge_lifetime_example =
    challenge_lifetime services services-IsRedis draws draws "login" (login 5 none) live

-- A login challenge is stored.
abbrev challenge_stored : World Cache
challenge_stored = record live { cache = (challenge_key "c" "login", login 5 none, 300) ∷ [] }

consume_once_example :
    (consume_challenge services draws "login" "c"
      (consume_challenge services draws "login" "c" challenge_stored).1).0
    ≡ ok none
consume_once_example =
    consume_once services services-IsRedis draws draws "login" "c" challenge_stored (omega arith)
