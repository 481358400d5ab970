-- ===== src/Auth/Refresh/Rotation.antt =====
-- The chain of tokens that rotation in api/auth.py makes: the old token is spent, the new one is
-- good, and a replay of the old one ends the chain.
use aurum_platform.Common.{
  ℕ, ◌+◌, ◌*◌, ◌<◌, ◌≡◌, refl, false, none, some, [], ◌∷◌, ap, ◌∙◌, arith, ◌==◌, ==-refl, is_blank,
  find, update, if◌then◌else◌, is_empty, eq_of_==,
}
use aurum_platform.Exec.{ok, Raised}
use aurum_platform.Models.{World, User, RefreshToken, Request, Draws}
use aurum_platform.Models.Tables.{
  find-append, find-append_new, find_passes, find-update, find-update-none,
}
use aurum_platform.Services.{Services}
use aurum_platform.Security.{refresh_ttl, second, hash_refresh_token, generate_refresh_token}
use aurum_platform.Deps.{get_user}
use aurum_platform.Auth.Tokens.{Tokens, new_refresh_token}
use aurum_platform.Auth.Refresh.{find_token, has_hash, has_id, retire_at, refresh}
use aurum_platform.Auth.Refresh.Accepts.{
  Accepts, Rotated, presented, refresh_sound, refresh_complete,
}
use aurum_platform.Auth.Refresh.Revocation.{AllRevoked, reuse-Ended, refresh_revoked, reuse_refused}

-- Retiring one row keeps the digest of every row.
retire_keeps_hash :
    (digest i now : ℕ) (t : RefreshToken)
    → has_hash digest (if has_id i t then retire_at now t else t) ≡ has_hash digest t
retire_keeps_hash digest i now t = ground arith

module _ {C : Type 0} (sv : Services C) (r : Request) (d : Draws) {w w' : World C}
    {row : RefreshToken} {user : User} (a : Accepts sv r d w row user)
    (s : Rotated sv r d w row user w') where
  -- The row that a second lookup of the old token finds.
  old_is_retired : find_token (presented sv r) w' ≡ some (retire_at d.now row)
  unfolding find_token
  old_is_retired = rw s.tokens (
      find-append (has_hash (presented sv r))
        (update (has_id row.id) (retire_at d.now) w.refresh_tokens)
        (new_refresh_token sv r d user ∷ []) (retire_at d.now row) found)
    where
      found :
          find
            (has_hash (presented sv r))
            (update (has_id row.id) (retire_at d.now) w.refresh_tokens)
          ≡ some (retire_at d.now row)
      found =
          find-update (has_hash (presented sv r)) (has_id row.id) (retire_at d.now) w.refresh_tokens
            (retire_keeps_hash (presented sv r) row.id d.now) row a.stored
          ∙ ap (λ b. some (if b then retire_at d.now row else row)) (==-refl row.id)

  -- The row that a lookup of the new token finds, if its digest was in no row.
  new_is_stored :
      find_token (sv.sha256 d.raw_refresh) w ≡ none
      → find_token (sv.sha256 d.raw_refresh) w' ≡ some (new_refresh_token sv r d user)
  unfolding find_token new_refresh_token generate_refresh_token
  new_is_stored fresh = rw s.tokens (
      find-append_new (has_hash (sv.sha256 d.raw_refresh))
        (update (has_id row.id) (retire_at d.now) w.refresh_tokens) (new_refresh_token sv r d user)
        (find-update-none (has_hash (sv.sha256 d.raw_refresh)) (has_id row.id) (retire_at d.now)
          w.refresh_tokens (retire_keeps_hash (sv.sha256 d.raw_refresh) row.id d.now) fresh)
        (==-refl (sv.sha256 d.raw_refresh)))

  known_id : user.id ≡ row.user_id
  known_id =
      eq_of_== user.id row.user_id
        (find_passes (λ u. u.id == row.user_id) w.users user (unfold get_user in a.known))

  -- The new token gets tokens, from a request that presents it before it expires.
  new_Accepts :
      (r' : Request) (d' : Draws)
      → find_token (sv.sha256 d.raw_refresh) w ≡ none
      → is_empty d.raw_refresh ≡ false
      → r'.refresh_cookie ≡ some d.raw_refresh
      → d'.now < d.refresh_now + refresh_ttl * second
      → Accepts sv r' d' w' (new_refresh_token sv r d user) user
  unfolding new_refresh_token generate_refresh_token hash_refresh_token get_user is_blank
  new_Accepts r' d' fresh full cookie in_time = record {
    cookie = rw cookie full;
    stored = rw cookie (new_is_stored fresh);
    live = refl;
    in_time = ground arith;
    known = simp (s.users, known_id) a.known;
    active = a.active;
  }

module _ {C : Type 0} (sv : Services C) (r r' : Request) (d d' : Draws) (w : World C) (t : Tokens)
    (granted : (refresh sv r d w).0 ≡ ok t) where
  -- After a refresh that returned tokens, presenting the same token again raises, and leaves no
  -- live token of its user: the token that the refresh issued is revoked too.
  pub replay_ends_chain :
      r'.refresh_cookie ≡ r.refresh_cookie
      → (row : RefreshToken) × (find_token (presented sv r) w ≡ some row)
        × Raised (refresh sv r' d' (refresh sv r d w).1).0
        × AllRevoked row.user_id (refresh sv r' d' (refresh sv r d w).1).1.refresh_tokens
  unfolding hash_refresh_token
  replay_ends_chain same =
      let (row, user, a, s) = refresh_sound sv r d w t granted in
      let w' = (refresh sv r d w).1 in
      let retired = retire_at d.now row in
      let e =
        refresh_revoked sv r' d' w' retired (rw same a.cookie) (rw same (old_is_retired sv r d a s))
          refl in
      (
        row,
        a.stored,
        rw e (reuse_refused r' w' d'.now retired),
        rw e (reuse-Ended r' w' d'.now retired).revoked,
      )

  -- After a refresh that returned tokens, the token in its cookie gets tokens in turn, from a
  -- request that presents it before it expires; its digest must not be stored already.
  pub rotation_goes_on :
      find_token (sv.sha256 d.raw_refresh) w ≡ none
      → is_empty d.raw_refresh ≡ false
      → r'.refresh_cookie ≡ some d.raw_refresh
      → d'.now < d.refresh_now + refresh_ttl * second
      → (t' : Tokens) × ((refresh sv r' d' (refresh sv r d w).1).0 ≡ ok t')
  rotation_goes_on fresh full cookie in_time =
      let (row, user, a, s) = refresh_sound sv r d w t granted in
      refresh_complete sv r' d' (refresh sv r d w).1 (new_refresh_token sv r d user) user
        (new_Accepts sv r d a s r' d' fresh full cookie in_time)
