-- ===== src/Auth/Refresh/Revocation.antt =====
-- How tokens of api/auth.py end: a replay or `logout_all` revokes every token of the user, `logout`
-- the presented one, and a revoked token is never accepted again.
use aurum_platform.Common.{
  ℕ, ◌≡◌, refl, sym, true, false, not, some, List, arith, ◌==◌, is_some, is_blank, update, select,
  All, if◌then◌else◌, subst,
}
use aurum_platform.Errors.{handle_error, problem}
use aurum_platform.Exec.{ok, Raised, ◌>>=◌}
use aurum_platform.Models.{World, User, RefreshToken, Request, Draws}
use aurum_platform.Models.Tables.{All-update, All-find, select-update_off}
use aurum_platform.Services.{Services}
use aurum_platform.Session.{serve, begin, respond, failure}
use aurum_platform.Audit.{write_audit}
use aurum_platform.Auth.Refresh.{
  find_token, has_hash, is_live_of, revoke_at, refresh, refresh_found, refresh_row, reuse_detected,
  revoke_all, logout_all,
}
use aurum_platform.Auth.Refresh.Accepts.{presented, refresh-refresh_found}
use aurum_platform.Deps.{get_current_user}
use aurum_platform.Deps.CurrentUser.{Authenticates-enters, entered_Authenticates}

-- No token of the user is live.
abbrev pub AllRevoked : ℕ → List RefreshToken → Type 0
AllRevoked user_id = All (λ t. is_live_of user_id t ≡ false)

-- The tokens of the other users.
abbrev pub of_others : ℕ → List RefreshToken → List RefreshToken
of_others user_id = select (λ t. not (t.user_id == user_id))

revoked_is_not_live :
    (user_id now : ℕ) (t : RefreshToken)
    → is_live_of user_id (if is_live_of user_id t then revoke_at now t else t) ≡ false
unfolding is_live_of
revoked_is_not_live user_id now t = ground arith

live_is_own :
    (user_id now : ℕ) (t : RefreshToken)
    → is_live_of user_id t ≡ true
    → (not (t.user_id == user_id) ≡ false) × (not ((revoke_at now t).user_id == user_id) ≡ false)
unfolding is_live_of
live_is_own user_id now t h = ground arith

-- `UPDATE … SET revoked_at = now WHERE user_id = … AND revoked_at IS NULL`
revoke_AllRevoked :
    (user_id now : ℕ) (ts : List RefreshToken)
    → AllRevoked user_id (update (is_live_of user_id) (revoke_at now) ts)
revoke_AllRevoked user_id now ts =
    All-update (λ t. is_live_of user_id t ≡ false) (is_live_of user_id) (revoke_at now) ts
      (revoked_is_not_live user_id now)

revoke_others :
    (user_id now : ℕ) (ts : List RefreshToken)
    → of_others user_id (update (is_live_of user_id) (revoke_at now) ts) ≡ of_others user_id ts
revoke_others user_id now ts =
    select-update_off (λ t. not (t.user_id == user_id)) (is_live_of user_id) (revoke_at now) ts
      (live_is_own user_id now)

-- What is left of the tokens of a user when all are revoked.
pub record Ended {C : Type 0} (user_id : ℕ) (w w' : World C) : Type 0 where
  pub revoked : AllRevoked user_id w'.refresh_tokens
  pub others : of_others user_id w'.refresh_tokens ≡ of_others user_id w.refresh_tokens
  pub users : w'.users ≡ w.users

module _ {C : Type 0} (r : Request) (w : World C) where
  pub reuse-Ended :
      (now : ℕ) (row : RefreshToken) → Ended row.user_id w (reuse_detected r now row w).1
  unfolding reuse_detected write_audit
  reuse-Ended now row = record {
    revoked = revoke_AllRevoked row.user_id now w.refresh_tokens;
    others = revoke_others row.user_id now w.refresh_tokens;
    users = refl;
  }

  pub revoke_all-Ended : (d : Draws) (user : User) → Ended user.id w (revoke_all r d user w).1
  unfolding revoke_all write_audit
  revoke_all-Ended d user = record {
    revoked = revoke_AllRevoked user.id d.now w.refresh_tokens;
    others = revoke_others user.id d.now w.refresh_tokens;
    users = refl;
  }

-- A stored token that is revoked.
abbrev pub IsRevoked : RefreshToken → Type 0
IsRevoked t = is_some t.revoked_at ≡ true

module _ {C : Type 0} (sv : Services C) (r : Request) (d : Draws) (w : World C) where
  pub refresh_revoked :
      (row : RefreshToken)
      → is_blank r.refresh_cookie ≡ false
      → find_token (presented sv r) w ≡ some row
      → IsRevoked row
      → refresh sv r d w ≡ reuse_detected r d.now row w
  unfolding refresh_found refresh_row
  refresh_revoked row c f h = rw (refresh-refresh_found sv r d w c) (simp (f, h))

module _ {C : Type 0} (r : Request) (w : World C) where
  pub reuse_refused : (now : ℕ) (row : RefreshToken) → Raised (reuse_detected r now row w).0
  unfolding reuse_detected write_audit
  reuse_refused now row = tt

  reuse_reply :
      (now : ℕ) (row : RefreshToken)
      → respond r.request_id (reuse_detected r now row w).0 (reuse_detected r now row w).1.cookie
        ≡ failure (
            problem 401 "unauthorized" "refresh token reuse detected; all sessions revoked"
              r.request_id)
  unfolding reuse_detected write_audit respond handle_error
  reuse_reply now row = refl

module _ {C : Type 0} (sv : Services C) (r : Request) (d : Draws) (w : World C) where
  -- Presenting a revoked token is refused with 401, and what is committed is that every token of
  -- its user is revoked and that the tokens of other users are as they were.
  pub refresh_reuse :
      (row : RefreshToken)
      → is_blank r.refresh_cookie ≡ false
      → find_token (presented sv r) (begin w) ≡ some row
      → IsRevoked row
      → let (reply, w') = serve r.request_id (refresh sv r d) w in
        (reply
          ≡ failure (
              problem 401 "unauthorized" "refresh token reuse detected; all sessions revoked"
                r.request_id))
        × AllRevoked row.user_id w'.committed.refresh_tokens
        × (of_others row.user_id w'.committed.refresh_tokens
            ≡ of_others row.user_id w.committed.refresh_tokens)
  unfolding serve
  refresh_reuse row c f h =
      let e = refresh_revoked sv r d (begin w) row c f h in
      let ended = reuse-Ended r (begin w) d.now row in
      rw e (reuse_reply r (begin w) d.now row, ended.revoked, ended.others)

-- A live token has no `revoked_at`, so a row of a user whose tokens are all revoked has one.
not_live-IsRevoked : (t : RefreshToken) → is_live_of t.user_id t ≡ false → IsRevoked t
unfolding is_live_of
not_live-IsRevoked t h = ground arith

module _ {C : Type 0} (sv : Services C) (r : Request) (d : Draws) (w : World C) where
  -- Where all tokens of a user are revoked, presenting any of them raises.
  AllRevoked-refused :
      (row : RefreshToken)
      → is_blank r.refresh_cookie ≡ false
      → find_token (presented sv r) w ≡ some row
      → AllRevoked row.user_id w.refresh_tokens
      → Raised (refresh sv r d w).0
  unfolding find_token
  AllRevoked-refused row c f h =
      rw
        (refresh_revoked sv r d w row c f (
          not_live-IsRevoked row (
            All-find (λ t. is_live_of row.user_id t ≡ false) (has_hash (presented sv r))
              w.refresh_tokens row h f)))
        (reuse_refused r w d.now row)

logout_all-revoke_all :
    {C : Type 0} (sv : Services C) (r : Request) (d : Draws) (w : World C) (user : User)
    → (get_current_user sv r d w).0 ≡ ok user
    → logout_all sv r d w ≡ revoke_all r d user w
unfolding logout_all
logout_all-revoke_all sv r d w user entered =
    rw (Authenticates-enters sv r d w user (entered_Authenticates sv r d w user entered), ◌>>=◌)

-- After the `logout_all` of a user, every later refresh request that presents a token of that user
-- raises, whatever its time; the tokens of other users are as they were.
pub logout_all_ends_sessions :
    {C : Type 0} (sv : Services C) (r r' : Request) (d d' : Draws) (w : World C) (user : User)
    (row : RefreshToken)
    → (get_current_user sv r d w).0 ≡ ok user
    → is_blank r'.refresh_cookie ≡ false
    → find_token (presented sv r') (logout_all sv r d w).1 ≡ some row
    → row.user_id ≡ user.id
    → Raised (refresh sv r' d' (logout_all sv r d w).1).0
      × (of_others user.id (logout_all sv r d w).1.refresh_tokens
          ≡ of_others user.id w.refresh_tokens)
logout_all_ends_sessions sv r r' d d' w user row entered c f own =
    let e = logout_all-revoke_all sv r d w user entered in
    let ended = subst (λ x. Ended user.id w x.1) (sym e) (revoke_all-Ended r w d user) in
    (
      AllRevoked-refused sv r' d' (logout_all sv r d w).1 row c f (rw own ended.revoked),
      ended.others,
    )
