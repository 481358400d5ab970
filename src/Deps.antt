-- ===== src/Deps.antt =====
-- api/deps.py: the current user and the context of a request.
pub mod CurrentUser
use aurum_platform.Common.{
  ℕ, String, Bool, false, Option, none, some, codes, lower, starts_with_codes, strip, before, after,
  is_blank, if◌then◌else◌, find, ◌==◌,
}
use aurum_platform.Errors.{app, auth}
use aurum_platform.Exec.{Exec, raise, require, or_raise, gets, pure, ◌>>=◌, ◌>>◌}
use aurum_platform.Models.{World, User, Request, Draws}
use aurum_platform.Services.{Services, Claims, Attempt, returned, raised}
use aurum_platform.Security.{decode_access_token}

-- `authorization.lower().startswith("bearer ")`, for a header that is there and not empty.
unfoldable pub is_bearer : Option String → Bool
unfolding lower starts_with_codes
is_bearer none = false
is_bearer (some s) = starts_with_codes (lower s) (codes "bearer ")

-- `authorization.split(" ", 1)[1].strip()`
unfoldable pub bearer_token : Option String → String
unfolding strip after
bearer_token none = ""
bearer_token (some s) = strip (after b' ' s)

-- The first address of `X-Forwarded-For`, or else the peer of the connection.
unfoldable pub client_ip : Request → Option String
unfolding is_blank strip before
client_ip r = elim r.forwarded_for [
  | none ↦ r.client_host
  | some xff ↦ if is_blank (some xff) then r.client_host else some (strip (before b',' xff))
]

module _ {C : Type 0} where
  -- `session.get(User, id)`
  unfoldable pub get_user : ℕ → World C → Option User
  unfolding find
  get_user i w = find (λ u. u.id == i) w.users

  -- `user is None or not user.is_active` raises.
  unfoldable pub active_or_raise : Option User → String → Exec (World C) User
  unfolding raise pure
  active_or_raise none message = raise (app auth message)
  active_or_raise (some u) message = if u.is_active then pure u else raise (app auth message)

  unfoldable pub lift_attempt : {A : Type 0} → Attempt A → Exec (World C) A
  unfolding raise pure
  lift_attempt (returned a) = pure a
  lift_attempt (raised text) = raise (app auth text)

  module _ (sv : Services C) where
    -- The identifier that the claim `sub` holds.
    unfoldable pub subject : Claims → Option ℕ
    subject c = elim c.sub [ none ↦ none | some text ↦ sv.parse_uuid text ]

    unfoldable pub get_current_user : Request → Draws → Exec (World C) User
    unfolding is_bearer bearer_token decode_access_token subject get_user active_or_raise
        lift_attempt ◌>>=◌
    get_current_user r d = do
      require (is_bearer r.authorization) (app auth "missing bearer token")
      payload ← lift_attempt (decode_access_token sv d.now (bearer_token r.authorization))
      user_id ← or_raise (subject payload) (app auth "malformed token subject")
      user ← gets (get_user user_id)
      active_or_raise user "user not found or disabled"
